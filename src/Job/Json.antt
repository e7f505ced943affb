-- ===== src/Job/Json.antt =====
-- cmd/mistryd/job.go: how a job is printed, and its JSON.
use Prim.Native.Nat.{◌/◌, ◌%◌, ◌-◌}
use mistry.Base.{
  ℕ, zero, suc, ◌+◌, ◌*◌, ◌≤◌, ◌≡◌, refl, ◌↔◌, Option, none, some, ◌++◌, arith, nat_eq, list_eq,
}
use mistry.Base.Text.{Str, codes, first_bytes}
use mistry.Base.Int.{ℤ, pos, negsuc}
use mistry.Types.{BuildInfo}
use mistry.Job.{Job, hex}

-- `randomHexString`, of the 16 bytes that `rand.Read` gives.
unfoldable pub random_hex_string : Str → Str
unfolding hex
random_hex_string buf = hex buf

-- `String`; an id of fewer than seven bytes makes it panic.
unfoldable pub job_text : Job → Option Str
job_text j = elim (first_bytes 7 j.id) [
  | none ↦ none
  | some short ↦ some (
      codes "{project="
      ++ (j.project ++ (codes " group=" ++ (j.group ++ (codes " id=" ++ (short ++ codes "}"))))))
]

-- The seconds by which the clock of a zone is ahead of UTC.
abbrev pub Zone : Type 0
Zone = ℤ

-- A text in the format DateFmt, by the seconds since 1970 that a clock without a zone shows by it: it
-- has neither a fraction of a second nor a zone. Times are at least a day after 1970.
abbrev pub Date : Type 0
Date = ℕ

abbrev pub billion : ℕ
billion = 1000000000

-- `t.Format(DateFmt)`
abbrev pub format_date : Zone → ℕ → Date
format_date (pos ahead) t = t / billion + ahead
format_date (negsuc behind) t = t / billion - suc behind

-- `time.Parse(DateFmt, d)`, which takes a text without a zone for one in UTC.
abbrev pub parse_date : Date → ℕ
parse_date d = d * billion

-- The struct that MarshalJSON and UnmarshalJSON go through.
pub record JobData : Type 0 where
  pub id : Str
  pub project : Str
  pub started_at : Date
  pub build_info : BuildInfo
  pub state : Str

unfoldable pub marshal_json : Zone → Job → JobData
marshal_json zone j = record {
  id = j.id;
  project = j.project;
  started_at = format_date zone j.started_at;
  build_info = j.build_info;
  state = j.state;
}

-- `UnmarshalJSON`, of data whose date has the format.
unfoldable pub unmarshal_json : JobData → Job → Job
unmarshal_json d j = record j {
  id = d.id;
  project = d.project;
  started_at = parse_date d.started_at;
  build_info = d.build_info;
  state = d.state;
}

-- What goes through JSON comes back, but for the time of the start.
pub unmarshal_json-marshal_json :
    (zone : Zone) (j k : Job)
    → unmarshal_json (marshal_json zone j) k ≡ record k {
      id = j.id;
      project = j.project;
      started_at = parse_date (format_date zone j.started_at);
      build_info = j.build_info;
      state = j.state;
    }
unfolding unmarshal_json marshal_json
unmarshal_json-marshal_json zone j k = refl

-- The time comes back exactly if the clock is that of UTC and the time is one of whole seconds.
pub parse_date-format_date :
    (zone : Zone) (t : ℕ)
    → 86400 ≤ t / billion
    → (parse_date (format_date zone t) ≡ t) ↔ ((zone ≡ pos 0) × (t % billion ≡ 0))
parse_date-format_date (pos zero) t h = (λ e. (refl, omega (arith, e)), λ e. omega (arith, e.1))
parse_date-format_date (pos (suc a)) t h =
    (λ e. absurd (omega (arith, e)), λ e. absurd (ground (arith, e.0)))
parse_date-format_date (negsuc b) t h =
    (λ e. absurd (omega (arith, e, h)), λ e. absurd (ground (arith, e.0)))
