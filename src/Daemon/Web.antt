-- ===== src/Daemon/Web.antt =====
-- net/http as the daemon uses it: what a request comes to, and a body that is read up to a limit.
use sparstrowgen.Prelude.{length, take, ℕ, Option, none, leb, if◌then◌else◌}
use sparstrowgen.Text.{Text}

-- No response, with the error's text; or one: its status code, its status line, the bytes of its body as
-- far as they come, and the error that ends them, if one does.
pub data Response : Type 0 where
  no_response : Text → Response
  response : ℕ → Text → Text → Option Text → Response

-- What reading io.LimitReader(body, n) to its end gives: the bytes, and the error it ends in.
unfoldable pub read_limited : ℕ → Text → Option Text → Text × Option Text
read_limited n body stopped = if leb n (length body) then (take n body, none) else (body, stopped)
