-- ===== src/Compute/Reasons.antt =====
-- The reasons for which a state is degraded after an event.
use lynx_monitor.Prelude.{
  Text, Bool, true, List, [], ◌∷◌, ◌++◌, ◌&&◌, ◌||◌, not, any-append, if◌then◌else◌, codes, text_eq,
  text_equality, ◌≡◌, refl, ap, ◌∙◌, arith,
}
use lynx_monitor.Value.{Fields}
use lynx_monitor.Contracts.{Python}
use lynx_monitor.Compute.Freshness.{
  is_of_minute_bars, is_in, remaining_reasons, with_missing, existing_reasons, is_confirmed,
  freshness_degraded_reasons,
}

-- A reason that is looked for, after one of the reasons before
kept_reason :
    (confirmed : Bool) (t reason : Text) (reasons : List Text)
    → is_in t (
        if (is_of_minute_bars reason && confirmed) || is_in reason reasons
        then reasons
        else reasons ++ (reason ∷ []))
      ≡ (is_in t reasons || (text_eq t reason && not (is_of_minute_bars t && confirmed)))
kept_reason confirmed t reason reasons =
    ground (arith, any-append (text_eq t) reasons (reason ∷ []), text_equality.same_iff t reason)

is_in-remaining_reasons :
    (confirmed : Bool) (t : Text) (existing reasons : List Text)
    → is_in t (remaining_reasons confirmed existing reasons)
      ≡ (is_in t reasons || (is_in t existing && not (is_of_minute_bars t && confirmed)))
unfolding remaining_reasons
is_in-remaining_reasons confirmed t [] reasons = ground arith
is_in-remaining_reasons confirmed t (reason ∷ existing) reasons = ground (
  arith,
  kept_reason confirmed t reason reasons,
  is_in-remaining_reasons confirmed t existing (
      if (is_of_minute_bars reason && confirmed) || is_in reason reasons
      then reasons
      else reasons ++ (reason ∷ [])),
)

abbrev pub no_repeats : List Text → Bool
no_repeats [] = true
no_repeats (r ∷ rs) = not (is_in r rs) && no_repeats rs

no_repeats-append :
    (reasons : List Text) (r : Text)
    → no_repeats (reasons ++ (r ∷ [])) ≡ (no_repeats reasons && not (is_in r reasons))
no_repeats-append [] r = ground arith
no_repeats-append (q ∷ reasons) r = ground (
  arith,
  no_repeats-append reasons r,
  any-append (text_eq q) reasons (r ∷ []),
  text_equality.same_iff q r,
  text_equality.same_iff r q,
)

no_repeats-remaining_reasons :
    (confirmed : Bool) (existing reasons : List Text)
    → no_repeats reasons ≡ true
    → no_repeats (remaining_reasons confirmed existing reasons) ≡ true
unfolding remaining_reasons
no_repeats-remaining_reasons confirmed [] reasons h = h
no_repeats-remaining_reasons confirmed (r ∷ existing) reasons h =
    no_repeats-remaining_reasons confirmed existing
      (if (is_of_minute_bars r && confirmed) || is_in r reasons
        then reasons
        else reasons ++ (r ∷ []))
      (ground (arith, no_repeats-append reasons r))

-- Without confirmed minute bars the reason that they are missing is never added again.
with_missing_lem :
    (confirmed : Bool) (existing : List Text)
    → with_missing confirmed existing (remaining_reasons confirmed existing [])
      ≡ remaining_reasons confirmed existing []
with_missing_lem confirmed existing =
    ground (arith, is_in-remaining_reasons confirmed (codes "missing_minute_bars") existing [])

module _ (py : Python) where
  -- A reason is in the new reasons exactly if it was in the old ones and is not one of the two about minute bars at a
  -- time when the state has bars of the day; and no reason is there twice.
  pub freshness_degraded_reasons_lem :
      (state source_dates : Fields) (trade_date : Text) (reason : Text)
      → (is_in reason (freshness_degraded_reasons py state source_dates trade_date) ≡ (
          is_in reason (existing_reasons py state)
          && not (is_of_minute_bars reason && is_confirmed py state source_dates trade_date)))
        × (no_repeats (freshness_degraded_reasons py state source_dates trade_date) ≡ true)
  unfolding freshness_degraded_reasons
  freshness_degraded_reasons_lem state source_dates trade_date reason =
      let confirmed = is_confirmed py state source_dates trade_date in
      let existing = existing_reasons py state in
      (
        ap (is_in reason) (with_missing_lem confirmed existing)
            ∙ is_in-remaining_reasons confirmed reason existing [],
        ap no_repeats (with_missing_lem confirmed existing)
            ∙ no_repeats-remaining_reasons confirmed existing [] refl,
      )
