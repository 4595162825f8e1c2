-- ===== src/Identity/Accounts/Tests.antt =====
-- Invitations and sign-ins on concrete rows, and instances of their theorems.
use shauth.Common.{
  List, ℕ, String, Bool, true, false, none, some, [], ◌∷◌, ◌≡◌, ◌≢◌, refl, Commit, committed, ok,
  err, steps, find_first, codes, is_none, ◌==◌, string_eq, bytes_eq,
}
use shauth.Identity.Accounts.Rows.{Account, Invitation, Db, Site, Library}
use shauth.Identity.Accounts.{
  accept_invitation, accept_in_transaction, claim_row, insert_user, password_credential,
  invitation_state, state_of, invitation_pending, invitation_accepted, authenticate_password,
  local_account, wrong_secret,
}
use shauth.Identity.Accounts.History.{Event, run, withdraws, invites}
use shauth.Identity.Accounts.Invitations.{accept_invitation-once}
use shauth.Identity.Accounts.Federation.{federation_code, is_entra, is_github}
use shauth.Identity.Accounts.Federation.Entra.{find_or_create_entra_user-Unlinked, Unlinked}
use shauth.Identity.Accounts.Federation.GitHub.{
  find_or_create_github_user-IsSignedIn, IsSignedIn, demotes,
}

account_code : Unit {0}
unfolding steps accept_invitation accept_in_transaction claim_row insert_user password_credential
    invitation_state state_of authenticate_password federation_code
account_code = tt

abbrev plain : Library
plain = record {
  trim_space = λ s. s;
  to_lower = λ s. s;
  byte_length = λ s. 20;
  sha256 = codes;
  generate_from_password = λ s. some (codes s);
  compare_hash_and_password = λ hash s. hash == codes s;
  github_name = λ n. "github";
}

abbrev up : Site → Bool
up site = true

abbrev invited : Invitation
invited = record {
  id = "i1";
  email = "ann@example";
  role = "developer";
  token_hash = codes "t1";
  invited_by = "u0";
  created_at = 0;
  expires_at = 100;
  accepted_at = none;
  revoked_at = none;
}

abbrev root : Account
root = record {
  id = "u0";
  username = "root";
  email = "root@example";
  email_verified = true;
  password_hash = some (codes "secret");
  github_id = some 7;
  github_login = some "root";
  role = "admin";
  entra_tenant_id = none;
  entra_object_id = none;
  is_validation = false;
  disabled_at = none;
  created_at = 0;
}

abbrev tables : Db
tables = record { accounts = root ∷ []; invitations = invited ∷ [] }

abbrev ann : Account
ann = local_account plain up "u1" "ann" "ann@example" (codes "password") "developer" 5

abbrev accepted : Db
accepted = (accept_invitation plain up committed "u1" "t1" "ann" "password" 5 5 tables).0

wrong_password : authenticate_password plain up "root" "guess" tables ≡ err wrong_secret
unfolding account_code
wrong_password = refl

-- Afterwards the link is withdrawn and the same token is issued again.
abbrev later_calls : List Event
later_calls =
    record { reached = up; now = 6; call = withdraws "i1" }
    ∷ record {
      reached = up;
      now = 7;
      call = invites (some "t1") "i9" "eve@example" "developer" "u0";
    }
    ∷ []

accept_invitation-once_example :
    (invitation_state plain up "t1" 5 tables ≡ ok invitation_pending)
    × ((later : ℕ)
        → invitation_state plain up "t1" later (run plain later_calls accepted)
          ≡ ok invitation_accepted)
    × ((again : Site → Bool) (commit : Commit) (id username password : String) (now clock : ℕ)
          (b : Account)
        → (accept_invitation plain again commit id "t1" username password now clock
            (run plain later_calls accepted)).1
          ≢ ok b)
unfolding account_code
accept_invitation-once_example =
    accept_invitation-once plain up committed "u1" "t1" "ann" "password" 5 5 tables ann later_calls
      (refl, tt) refl refl refl

abbrev entra_ann : Account
entra_ann = record ann {
  id = "u2";
  password_hash = none;
  entra_tenant_id = some "tenant";
  entra_object_id = some "object";
  email_verified = false;
}

find_or_create_entra_user-Unlinked_example :
    (is_none entra_ann.disabled_at ≡ true)
    × (find_first (is_entra "tenant" "object") tables.accounts ≡ none
        → Unlinked false "ann@example" tables entra_ann)
unfolding account_code
find_or_create_entra_user-Unlinked_example =
    find_or_create_entra_user-Unlinked plain up "u2" "tenant" "object" "ann" "ann@example" false 5
      tables entra_ann refl

-- The administrator of GitHub identifier 7 signs in with a lesser role.
find_or_create_github_user-IsSignedIn_example :
    IsSignedIn plain up 7 "root" "developer" (record root { role = "developer" })
    × (true ≡ demotes plain up 7 "root" "developer" (find_first (is_github 7) tables.accounts))
unfolding account_code
find_or_create_github_user-IsSignedIn_example =
    find_or_create_github_user-IsSignedIn plain up committed "u3" 7 "root" "root@example"
      "developer" 5 tables (record root { role = "developer" }) true refl
