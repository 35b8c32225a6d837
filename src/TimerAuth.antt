-- ===== src/TimerAuth.antt =====
-- frontend/src/components/TimerBoard.jsx and frontend/src/utils/useAuth.js: who may write to the
-- timer board. A request in flight is an entry of a list of the state, and its answer is an
-- argument of the step that ends it. What the board draws, and the timers themselves, are left out.
mod Tests
pub mod Runs
pub mod Logout
use lawn_eve_intel_dashboard.Common.{
  ℕ, suc, ◌-◌, String, Bool, true, false, not, ◌&&◌, ◌||◌, Option, none, some, List, [], ◌∷◌, ltb,
  leb, ◌==◌, str_eq, if◌then◌else◌, or_else,
}

-- The response to a request, or that there was none.
pub data Response : Type 0 where
  responded : ℕ → Response
  rejected : Response

-- `res.ok`.
abbrev pub is_ok : ℕ → Bool
is_ok status = leb 200 status && ltb status 300

pub data Check : Type 0 where
  ok invalid locked error : Check

-- `checkTimerPassword`, given the response of /api/auth/check.
unfoldable pub check_timer_password : Response → Check
check_timer_password (responded status) =
    if is_ok status then ok else if status == 429 then locked else invalid
check_timer_password rejected = error

-- `TIMER_AUTH_MESSAGES[result] || ''`.
unfoldable pub message_of : Check → String
message_of invalid = "Invalid password"
message_of locked = "Too many attempts — wait a minute"
message_of ok = ""
message_of error = ""

-- The state of `useAuth`.
pub record Auth : Type 0 where
  pub sso_enabled : Bool
  pub logged_in : Bool
  pub authorized : Bool
  pub character_name : Option String
  pub loaded : Bool

-- The body of /api/auth/me, each field as a test reads it.
pub record Me : Type 0 where
  pub sso_enabled : Bool
  pub logged_in : Bool
  pub authorized : Bool
  pub character_name : Option String

-- How /api/auth/me ends: with a body that can be read, with an error status, or not at all.
pub data MeResult : Type 0 where
  body : Me → MeResult
  refused : MeResult
  failed : MeResult

abbrev pub no_auth : Auth
no_auth = record {
  sso_enabled = false;
  logged_in = false;
  authorized = false;
  character_name = none;
  loaded = false;
}

-- `refresh`, once it has its answer.
unfoldable pub refreshed : MeResult → Auth → Auth
refreshed (body d) a = record {
  sso_enabled = d.sso_enabled;
  logged_in = d.logged_in;
  authorized = d.authorized;
  character_name = d.character_name;
  loaded = true;
}
refreshed refused a = record a { loaded = true }
refreshed failed a = record a { loaded = true }

pub data Write : Type 0 where
  add_timer delete_timer : Write

-- The state of the board, `timer_auth` of the local storage, the passwords that are being checked,
-- the writes and the refreshes under way, and the passwords that the server has accepted.
pub record Board : Type 0 where
  pub password : String
  pub is_authenticated : Bool
  pub auth_error : String
  pub show_form : Bool
  pub auth : Auth
  pub stored : Option String
  pub checks : List String
  pub writes : List Write
  pub refreshes : ℕ
  pub accepted : List String

-- The board when it is mounted, with what the storage remembers, before its effects.
unfoldable pub mounted : Option String → Board
mounted stored = record {
  password = or_else stored "";
  is_authenticated = false;
  auth_error = "";
  show_form = false;
  auth = no_auth;
  stored = stored;
  checks = [];
  writes = [];
  refreshes = 1;
  accepted = [];
}

-- `canWrite` of the board.
unfoldable pub can_write : Board → Bool
can_write b = if b.auth.sso_enabled then b.auth.authorized else b.is_authenticated

-- `writeHeaders` of the board: the password in X-Timer-Auth, or none.
unfoldable pub write_headers : Board → Option String
write_headers b = if b.auth.sso_enabled then none else some b.password

-- `canWrite` and `writeHeaders` of `useWriteAuth`, which the other panels use.
unfoldable pub panel_can_write : Auth → Bool
panel_can_write a = a.authorized || not a.sso_enabled

unfoldable pub panel_headers : Auth → Option String → Option String
panel_headers a stored = if a.sso_enabled then none else some (or_else stored "")

-- `checkAuth`, up to its `await`.
unfoldable pub check_auth : String → Board → Board
check_auth pw b = if str_eq pw "" then b else record b { checks = pw ∷ b.checks }

-- The effect on mount, and `handleLogin`.
unfoldable pub check_remembered : Board → Board
unfolding check_auth
check_remembered b = check_auth (or_else b.stored "") b

unfoldable pub handle_login : Board → Board
unfolding check_auth
handle_login b = check_auth b.password b

-- `handleLogout`.
unfoldable pub handle_logout : Board → Board
handle_logout b = record b {
  is_authenticated = false;
  password = "";
  stored = none;
  show_form = false;
}

abbrev pub drop_check : String → List String → List String
drop_check pw [] = []
drop_check pw (q ∷ qs) = if str_eq q pw then qs else q ∷ drop_check pw qs

-- `checkAuth` after its `await`.
unfoldable pub apply_check : String → Check → Board → Board
unfolding message_of
apply_check pw ok b = record b {
  is_authenticated = true;
  auth_error = message_of ok;
  stored = some pw;
  accepted = pw ∷ b.accepted;
}
apply_check pw invalid b = record b { is_authenticated = false; auth_error = message_of invalid }
apply_check pw locked b = record b { is_authenticated = false; auth_error = message_of locked }
apply_check pw error b = record b { is_authenticated = false; auth_error = message_of error }

unfoldable pub check_done : String → Response → Board → Board
unfolding apply_check check_timer_password
check_done pw r b =
    apply_check pw (check_timer_password r) (record b { checks = drop_check pw b.checks })

-- `handleAdd` and `handleDelete` up to their requests: a timer needs a system and a time, and a
-- deletion has to be confirmed.
unfoldable pub handle_add : String → String → Board → Board
handle_add system_name timestamp b =
    if str_eq system_name "" || str_eq timestamp ""
    then b
    else record b { writes = add_timer ∷ b.writes }

unfoldable pub handle_delete : Bool → Board → Board
handle_delete confirmed b = if confirmed then record b { writes = delete_timer ∷ b.writes } else b

abbrev pub close_form : Write → Board → Board
close_form add_timer b = record b { show_form = false }
close_form delete_timer b = b

-- Their ends. A request that gets no response throws, and changes nothing.
unfoldable pub write_done : Write → Response → Board → Board
unfolding message_of
write_done w (responded status) b =
    if is_ok status
    then close_form w b
    else if status == 401
    then record b {
      is_authenticated = false;
      auth_error = message_of invalid;
      refreshes = suc b.refreshes;
    }
    else b
write_done w rejected b = b

-- `refresh` of the board.
unfoldable pub refresh_done : MeResult → Board → Board
unfolding refreshed
refresh_done m b = record b { auth = refreshed m b.auth; refreshes = b.refreshes - 1 }
