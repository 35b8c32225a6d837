-- ===== src/JumpBridges.antt =====
-- frontend/src/components/JumpBridgeManager.jsx: who may change the jump bridges, and how. A handler
-- is a function of the state and of what its request gives.
mod Tests
use lawn_eve_intel_dashboard.Common.{
  ℕ, ◌+◌, String, Bool, true, false, ◌||◌, Option, none, some, List, [], ◌∷◌, ◌==◌, if◌then◌else◌,
  or_else,
}
use lawn_eve_intel_dashboard.Common.Text.{Text, is_nil, trim}
use lawn_eve_intel_dashboard.TimerAuth.{Auth, Check, ok, invalid, locked, error, message_of}

-- `newJb`.
pub record Draft : Type 0 where
  pub system_a : Text
  pub system_b : Text
  pub label : Text

abbrev pub empty_draft : Draft
empty_draft = record { system_a = []; system_b = []; label = [] }

-- What the manager has sent: a check of a password, or a write with the password in its header.
pub data BridgeRequest : Type 0 where
  check : Text → BridgeRequest
  add_bridge : Draft → Option Text → BridgeRequest
  delete_bridge : ℕ → Option Text → BridgeRequest

-- `refreshes` and `changes` count the calls of `auth.refresh` and of `onJbChange`.
pub record Manager : Type 0 where
  pub auth : Auth
  pub show_form : Bool
  pub draft : Draft
  pub password : Text
  pub is_authenticated : Bool
  pub auth_message : String
  pub stored : Option Text
  pub refreshes : ℕ
  pub changes : ℕ
  pub sent : List BridgeRequest

-- `canWrite` and `writeHeaders`.
unfoldable pub may_write : Manager → Bool
may_write m = if m.auth.sso_enabled then m.auth.authorized else m.is_authenticated

abbrev pub password_header : Manager → Option Text
password_header m = if m.auth.sso_enabled then none else some m.password

abbrev pub accepts : Check → Bool
accepts ok = true
accepts _ = false

-- `checkAuth`, with the result of the check.
unfoldable pub check_password : Text → Check → Manager → Manager
unfolding message_of
check_password [] c m = m
check_password (d ∷ pw) c m = record m {
  is_authenticated = accepts c;
  auth_message = message_of c;
  stored = if accepts c then some (d ∷ pw) else m.stored;
  sent = check (d ∷ pw) ∷ m.sent;
}

-- The check on mount, and `handleLogin`.
unfoldable pub check_stored : Check → Manager → Manager
unfolding check_password
check_stored c m = check_password (or_else m.stored []) c m

unfoldable pub log_in : Check → Manager → Manager
unfolding check_password
log_in c m = check_password m.password c m

-- `handleLogout`.
unfoldable pub log_out : Manager → Manager
log_out m = record m { is_authenticated = false; password = []; stored = none; show_form = false }

-- How a write ends: done, or with an error status. A request that fails ends the handler.
pub data WriteEnd : Type 0 where
  done : WriteEnd
  denied : ℕ → WriteEnd
  cut_off : WriteEnd

abbrev pub lose_access : ℕ → Manager → Manager
lose_access status m =
    if status == 401
    then record m {
      is_authenticated = false;
      auth_message = "Invalid password";
      refreshes = m.refreshes + 1;
    }
    else m

abbrev pub add_end : WriteEnd → Manager → Manager
add_end done m = record m { show_form = false; draft = empty_draft; changes = m.changes + 1 }
add_end (denied status) m = lose_access status m
add_end cut_off m = m

-- `handleAdd`: a bridge needs both systems.
unfoldable pub add_jump_bridge : WriteEnd → Manager → Manager
unfolding trim
add_jump_bridge e m =
    if is_nil (trim m.draft.system_a) || is_nil (trim m.draft.system_b)
    then m
    else add_end e (record m { sent = add_bridge m.draft (password_header m) ∷ m.sent })

abbrev pub delete_end : WriteEnd → Manager → Manager
delete_end done m = record m { changes = m.changes + 1 }
delete_end (denied status) m = lose_access status m
delete_end cut_off m = m

-- `handleDelete`, with the answer to its question.
unfoldable pub delete_jump_bridge : Bool → ℕ → WriteEnd → Manager → Manager
delete_jump_bridge confirmed id e m =
    if confirmed
    then delete_end e (record m { sent = delete_bridge id (password_header m) ∷ m.sent })
    else m
