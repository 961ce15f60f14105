-- ===== src/Session/Buckets.antt =====
-- The bucket of a minute.
use lynx_monitor.Prelude.{
  Text, true, some, ◌≡◌, ap, if◌then◌else◌, inl, inr, ◌⊎◌, arith, Option-cases,
}
use lynx_monitor.Freshness.{replace_z}
use lynx_monitor.Session.{Datetimes, parse_hk_datetime, minute_bucket, hk_minute}

-- What the standard library documents: a text that `isoformat` makes of the start of a minute in Hong Kong has no Z, and `fromisoformat` reads it back as it was.
pub record ReadsBack {D : Type 0} (datetimes : Datetimes D) : Type 0 where
  pub plain :
      (d : D)
      → replace_z (datetimes.isoformat (hk_minute datetimes d))
        ≡ datetimes.isoformat (hk_minute datetimes d)
  pub read_back :
      (d : D)
      → datetimes.fromisoformat (datetimes.isoformat (hk_minute datetimes d))
        ≡ some (hk_minute datetimes d)
  pub aware : (d : D) → datetimes.has_tzinfo (hk_minute datetimes d) ≡ true
  pub same_zone : (d : D) → datetimes.astimezone (hk_minute datetimes d) ≡ hk_minute datetimes d
  pub start_again :
      (d : D) → datetimes.start_of_minute (hk_minute datetimes d) ≡ hk_minute datetimes d

module _ {D : Type 0} (datetimes : Datetimes D) (reads : ReadsBack datetimes) where
  parse-isoformat :
      (d : D)
      → parse_hk_datetime datetimes (datetimes.isoformat (hk_minute datetimes d))
        ≡ some (hk_minute datetimes d)
  unfolding parse_hk_datetime
  parse-isoformat d =
      ground (arith, reads.plain d, reads.read_back d, reads.aware d, reads.same_zone d)

  parse-cases :
      (t : Text)
      → (minute_bucket datetimes t ≡ t)
        ⊎ ((d : D) × (minute_bucket datetimes t ≡ datetimes.isoformat (hk_minute datetimes d)))
  unfolding minute_bucket parse_hk_datetime
  parse-cases t = elim (Option-cases (datetimes.fromisoformat (replace_z t))) [
    | inl e ↦ inl (ground (arith, e))
    | inr (d, e) ↦
        inr (if datetimes.has_tzinfo d then d else datetimes.replace_tzinfo d, ground (arith, e))
  ]

  -- The bucket of a minute's bucket is that bucket: a text that is no timestamp is its own bucket, and the
  -- start of a minute in Hong Kong starts its minute. The standard library reads back what `isoformat` makes.
  pub minute_bucket-minute_bucket :
      (timestamp : Text)
      → minute_bucket datetimes (minute_bucket datetimes timestamp)
        ≡ minute_bucket datetimes timestamp
  unfolding minute_bucket
  minute_bucket-minute_bucket timestamp = elim (parse-cases timestamp) [
    | inl e ↦ ap (minute_bucket datetimes) e
    | inr (d, e) ↦ rw (e) (ground (arith, parse-isoformat d, reads.start_again d))
  ]
