-- ===== src/Api/Access/Emails.antt =====
-- accounts.go: the emails, and the links in them.
use sparstrowgen.Prelude.{List, [], ◌∷◌, ◌++◌, ◌==◌, nat_eq}
use sparstrowgen.Text.{Text, codes, trim_right_by}
use sparstrowgen.Api.Access.{Message}

-- strings.TrimRight(_, "/").
unfoldable pub without_slashes : Text → Text
unfolding trim_right_by
without_slashes s = trim_right_by (λ c. c == b'/') s

unfoldable pub link_url : (Text → Text) → Text → Text → Text → Text
unfolding without_slashes
link_url query_escape origin page token =
    without_slashes origin ++ codes "/" ++ page ++ codes "?token=" ++ query_escape token

abbrev lines : List Text → Text
lines [] = []
lines (l ∷ ls) = l ++ 10 ∷ lines ls

unfoldable pub confirm_email : Text → Text → Message
confirm_email to link = record {
  to = to;
  subject = codes "Finish creating your sparstrowgen account";
  body = lines (
      (codes "Someone, hopefully you, started creating a sparstrowgen account for "
        ++ to
        ++ codes ".")
      ∷ []
      ∷ codes "Finish creating your account:"
      ∷ link
      ∷ []
      ∷ (codes "This link works once, for the next 30 minutes. If this wasn't you, "
          ++ codes "ignore this email and nothing will be created.")
      ∷ []);
}

unfoldable pub already_registered_email : Text → Text → Message
unfolding without_slashes
already_registered_email to origin =
    let base = without_slashes origin in
    record {
      to = to;
      subject = codes "You already have a sparstrowgen account";
      body = lines (
          (codes "Someone tried to create an account for "
            ++ to
            ++ codes ", but that address already has one.")
          ∷ []
          ∷ codes "Sign in:"
          ∷ (base ++ codes "/")
          ∷ []
          ∷ codes "Forgotten your password? Reset it here:"
          ∷ (base ++ codes "/forgot")
          ∷ []
          ∷ codes "If this wasn't you, you don't need to do anything."
          ∷ []);
    }

unfoldable pub reset_email : Text → Text → Message
reset_email to link = record {
  to = to;
  subject = codes "Reset your sparstrowgen password";
  body = lines (
      (codes "Someone asked to reset the password for " ++ to ++ codes ".")
      ∷ []
      ∷ codes "Choose a new password:"
      ∷ link
      ∷ []
      ∷ (codes "This link works once, for the next 30 minutes. Changing your password "
          ++ codes "signs out every other browser signed in to this account.")
      ∷ []
      ∷ codes "If this wasn't you, ignore this email and your password stays as it is."
      ∷ []);
}

unfoldable pub password_changed_email : Text → Text → Message
unfolding without_slashes
password_changed_email to origin = record {
  to = to;
  subject = codes "Your sparstrowgen password was changed";
  body = lines (
      (codes "The password for "
        ++ to
        ++ codes " was just changed, and every other browser signed in to this account was "
        ++ codes "signed out.")
      ∷ []
      ∷ codes "If this wasn't you, reset your password now:"
      ∷ (without_slashes origin ++ codes "/forgot")
      ∷ []);
}

unfoldable pub request_email : Text → Text → Message
request_email owner requester = record {
  to = owner;
  subject = codes "Access request from " ++ requester;
  body = lines (
      (requester
        ++ codes " asked to use sparstrowgen. That address has not been invited, so no "
        ++ codes "account was created.")
      ∷ []
      ∷ (codes "To approve, add the address to ALLOWED_EMAILS in the server's configuration "
          ++ codes "and restart it. They can then create their account with it.")
      ∷ []
      ∷ codes "Further requests from the same address will not be emailed again."
      ∷ []);
}
