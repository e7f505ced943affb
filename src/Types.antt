-- ===== src/Types.antt =====
-- pkg/types: the data that the server and the client share; and Go's errors.
use mistry.Base.{ℕ, Bool, true, false, Option, none, some, [], ◌++◌}
use mistry.Base.Dict.{Dict}
use mistry.Base.Text.{Str, codes}
use mistry.Base.Int.{ℤ, pos, negsuc}

-- A Go `error` that is not nil. `not_exist` is one that `os.IsNotExist` recognises.
pub data GoError : Type 0 where
  not_exist : Str → GoError
  message : Str → GoError

-- `err.Error()`
abbrev pub error_text : GoError → Str
error_text (not_exist s) = s
error_text (message s) = s

-- `os.IsNotExist`
abbrev pub is_not_exist : GoError → Bool
is_not_exist (not_exist _) = true
is_not_exist (message _) = false

-- The pair `(value, error)` of a fallible call, where the value counts only without an error.
pub data Result {ℓ} (A : Type ℓ) : Type ℓ where
  ok : A → Result A
  err : GoError → Result A

-- The call gave no error.
abbrev pub is_ok {ℓ} : {A : Type ℓ} → Result A → Bool
is_ok (ok _) = true
is_ok (err _) = false

-- The error of such a pair, `none` for nil.
abbrev pub error_of {ℓ} : {A : Type ℓ} → Result A → Option GoError
error_of (ok _) = none
error_of (err e) = some e

-- The value, or `a` beside an error.
abbrev pub value_or {ℓ} : {A : Type ℓ} → A → Result A → A
value_or a (ok b) = b
value_or a (err e) = a

abbrev pub Params : Type 0
Params = Dict Str Str

abbrev pub TransportMethod : Type 0
TransportMethod = Str

abbrev pub rsync : TransportMethod
rsync = codes "rsync"

abbrev pub scp : TransportMethod
scp = codes "scp"

-- -999
abbrev pub container_pending_exit_code : ℤ
container_pending_exit_code = negsuc 998

abbrev pub container_success_exit_code : ℤ
container_success_exit_code = pos 0

-- Times are nanoseconds since the epoch, durations nanoseconds.
pub record BuildInfo : Type 0 where
  pub params : Params
  pub group : Str
  pub path : Str
  pub cached : Bool
  pub coalesced : Bool
  pub incremental : Bool
  pub exit_code : ℤ
  pub err_build : Str
  pub container_stdouterr : Str
  pub container_stderr : Str
  pub transport_method : TransportMethod
  pub started_at : ℕ
  pub duration : ℤ
  pub url : Str

-- `NewBuildInfo`, at the time `now`.
abbrev pub new_build_info : ℕ → BuildInfo
new_build_info now = record {
  params = [];
  group = [];
  path = [];
  cached = false;
  coalesced = false;
  incremental = false;
  exit_code = container_pending_exit_code;
  err_build = [];
  container_stdouterr = [];
  container_stderr = [];
  transport_method = [];
  started_at = now;
  duration = negsuc 999999999;
  url = [];
}

pub record JobRequest : Type 0 where
  pub project : Str
  pub params : Params
  pub group : Str
  pub rebuild : Bool

-- `ErrImageBuild.Error`
abbrev pub err_image_build : Str → GoError → GoError
err_image_build image e =
    message (codes "could not build docker image '" ++ (image ++ (codes "': " ++ error_text e)))
