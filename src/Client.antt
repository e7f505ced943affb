-- ===== src/Client.antt =====
-- cmd/mistry: the command line client, from its arguments to the command that fetches the
-- artifacts.
pub mod Action
pub mod Outcome
pub mod Arguments
pub mod Rsync
use mistry.Base.{
  ℕ, Bool, true, false, Option, none, some, List, [], ◌∷◌, ◌++◌, ◌==◌, nat_eq, list_eq,
  if◌then◌else◌, contains,
}
use mistry.Types.{rsync, scp, Params}
use mistry.Base.Int.{int_eq}
use mistry.Base.Text.{Str, codes, has_prefix, trim_left, split}
use mistry.Base.Dict.{insert}

abbrev pub equals_sign : ℕ
equals_sign = b'='

abbrev pub dash : ℕ
dash = b'-'

-- `parsed[parts[0]] = parts[1]` for the parts of an argument with an equals sign.
abbrev pub store_parts : Params → List Str → Params
store_parts parsed [] = parsed
store_parts parsed (key ∷ []) = parsed
store_parts parsed (key ∷ value ∷ more) = insert key value parsed

abbrev pub strip_dashes : Str → Str
strip_dashes arg = trim_left arg (codes "--")

-- The loop of `parseDynamicArgs` from the map that it has built.
unfoldable pub parse_from : Params → List Str → Params
parse_from parsed [] = parsed
parse_from parsed (arg ∷ []) =
    if contains (strip_dashes arg) equals_sign
    then store_parts parsed (split (strip_dashes arg) equals_sign)
    else parsed
parse_from parsed (arg ∷ value ∷ args) = elim (contains (strip_dashes arg) equals_sign) [
  | true ↦ parse_from (store_parts parsed (split (strip_dashes arg) equals_sign)) (value ∷ args)
  | false ↦ parse_from (insert (strip_dashes arg) value parsed) args
]

abbrev pub parse_dynamic_args : List Str → Params
parse_dynamic_args args = parse_from [] args

-- `src[strings.Index(src, project):]`, `none` where the index is -1.
unfoldable pub from_first : Str → Str → Option Str
from_first p [] = if p == [] then some [] else none
from_first p (c ∷ s) = if has_prefix (c ∷ s) p then some (c ∷ s) else from_first p s

-- The arguments of a copy: the user, the host, the project, the source, the target and whether to
-- clear the target first.
pub record CopyArgs : Type 0 where
  pub user : Str
  pub host : Str
  pub project : Str
  pub src : Str
  pub dst : Str
  pub clear_dst : Bool

-- The commands of `Scp.Copy` and of `Rsync.Copy`; `none` is the `log.Fatalf`.
abbrev pub scp_command : CopyArgs → Option (List Str)
scp_command a = some (
    codes "scp"
    ∷ codes "-r"
    ∷ (a.user ++ (codes "@" ++ (a.host ++ (codes ":" ++ a.src))))
    ∷ a.dst
    ∷ [])

rsync_words : CopyArgs → Option Str → Option (List Str)
rsync_words a none = none
rsync_words a (some src) = some (
    (codes "rsync" ∷ codes "-rtlp" ∷ (if a.clear_dst then codes "--delete" ∷ [] else []))
    ++ ((a.user ++ (codes "@" ++ (a.host ++ (codes "::mistry/" ++ src)))) ∷ a.dst ∷ []))

unfoldable pub rsync_command : CopyArgs → Option (List Str)
unfolding rsync_words
rsync_command a = rsync_words a (from_first a.project a.src)

-- The flags of `mistry build`.
pub record Flags : Type 0 where
  pub host : Str
  pub port : Str
  pub project : Str
  pub group : Str
  pub rebuild : Bool
  pub timeout : Str
  pub no_wait : Bool
  pub transport : Str
  pub transport_user : Str
  pub target : Str
  pub clear_target : Bool
