-- ===== src/Leaderboard/Api.antt =====
-- leaderboard-poc/cmd/api/handlers.go: what the handlers share. A handler's outcome is `none` if it
-- panics.
pub mod Friends
pub mod Reads
pub mod Update
pub mod History
pub mod Socket
pub mod Examples
use classic_cheese.Prelude.{
  ℕ, suc, ◌-◌, String, String_discrete, Bool, List, [], ◌∷◌, Option, none, some, ite, if◌then◌else◌,
  ◌&&◌,
}
use classic_cheese.Prelude.Lists.{take, drop, length}
use classic_cheese.Prelude.Int.{ℤ, pos, negsuc, ◌+ℤ◌, wrap64, leb_ℤ}
use classic_cheese.Prelude.Text.{is_empty}
use classic_cheese.Prelude.Decimal.{atoi}
use classic_cheese.Http.{Reply, Body, json, set_header}
use classic_cheese.Leaderboard.Models.{SnapshotRow}
use classic_cheese.Leaderboard.Redis.{Error, failed, message, Result, value, error, Z}

pub record RankedEntry (F : Type 0) : Type 0 where
  pub rank : ℤ
  pub user_id : ℤ
  pub score : F

-- A time in nanoseconds from the zero time on.
abbrev pub Instant : Type 0
Instant = ℕ

-- The values that the handlers write as JSON.
pub data Payload (F : Type 0) : Type 0 where
  error_message : String → Payload F
  entries : List (RankedEntry F) → Payload F
  -- user_id, rank, score, found
  ranked : ℤ → ℤ → F → Bool → Payload F
  -- user_id, with found = false
  unranked : ℤ → Payload F
  -- user_id, region, scores
  updated : ℤ → String → List (String × F) → Payload F
  snapshot_rows : List (SnapshotRow Instant) → Payload F
  -- rows_written, snapshot_at
  snapshot_written : ℕ → Instant → Payload F

unfoldable pub write_json : {F : Type 0} → ℕ → Payload F → Reply (Payload F)
write_json status payload = record {
  status = status;
  headers = set_header "Content-Type" "application/json" [];
  body = json payload;
}

unfoldable pub write_error : {F : Type 0} → ℕ → Error → Reply (Payload F)
unfolding write_json message
write_error status e = write_json status (error_message (message e))

abbrev pub err_required_fields : Error
err_required_fields = failed "user_id, region and score_delta are required"

abbrev pub err_missing_region : Error
err_missing_region = failed "region is required for this scope"

abbrev pub err_missing_user_id : Error
err_missing_user_id = failed "user_id is required"

abbrev pub err_unknown_scope : Error
err_unknown_scope = failed "scope must be one of: global, regional, friends"

abbrev pub or_fallback : ℤ → Option ℤ → ℤ
or_fallback fallback none = fallback
or_fallback fallback (some v) = v

unfoldable pub parse_int_default : String → ℤ → ℤ
unfolding is_empty atoi
parse_int_default raw fallback = if is_empty raw then fallback else or_fallback fallback (atoi raw)

-- `xs[a:b]`, with the panic of a bound that is out of range.
unfoldable pub slice : {A : Type 0} → List A → ℤ → ℤ → Option (List A)
slice xs (pos a) (pos b) =
    if leb_ℤ (pos a) (pos b) && leb_ℤ (pos b) (pos (length xs))
    then some (take (b - a) (drop a xs))
    else none
slice xs (negsuc a) b = none
slice xs (pos a) (negsuc b) = none

module _ {F : Type 0} (atoi_error : String → Error) where
  unfoldable pub add_entry :
      RankedEntry F → Result (List (RankedEntry F)) → Result (List (RankedEntry F))
  add_entry e (value es) = value (e ∷ es)
  add_entry e (error err) = error err

  unfoldable pub entry_of :
      ℤ → Z F → Option ℤ → Result (List (RankedEntry F)) → Result (List (RankedEntry F))
  unfolding add_entry
  entry_of rank z none rest = error (atoi_error z.member)
  entry_of rank z (some user_id) rest =
      add_entry (record { rank = rank; user_id = user_id; score = z.score }) rest

  -- The entries from the i-th on.
  unfoldable pub entries_from : ℤ → ℕ → List (Z F) → Result (List (RankedEntry F))
  unfolding entry_of wrap64 ◌+ℤ◌ atoi
  entries_from start i [] = value []
  entries_from start i (z ∷ zs) =
      entry_of (wrap64 (start +ℤ pos i)) z (atoi z.member) (entries_from start (suc i) zs)

  unfoldable pub z_to_entries : List (Z F) → ℤ → Result (List (RankedEntry F))
  unfolding entries_from
  z_to_entries zs start = entries_from start 0 zs
