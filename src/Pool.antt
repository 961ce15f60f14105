-- ===== src/Pool.antt =====
-- backend/beast_market/active_pool.py: `ActiveSymbolPoolManager`. The state has the fields of the class.
-- A rank is looked up by symbol and otherwise passed on, so it is a parameter `R`, as a classification is
-- through its fields. A rebuild takes the result of `rank_active_symbols` as an argument. The sets `temporary_symbols` and `before`, `after` are lists without repeats;
-- `sorted` orders texts by `compare`.
pub mod Members
pub mod Invariant
pub mod Changes
use lynx_monitor.Prelude.{
  ℕ, zero, suc, ◌+◌, ◌-◌, Text, Bool, true, false, not, ◌&&◌, ◌||◌, Option, none, some, List, [],
  ◌∷◌, ◌++◌, map, any, select, take, length, leb, ltb, eqb, if◌then◌else◌, Result, ok, raise, ◌>>=◌,
  codes, text_eq, text_equality,
}
use lynx_monitor.Prelude.Dict.{Dict, get, put}
use lynx_monitor.Symbols.{normalize_subscription_symbol}

-- symbol in symbols
abbrev pub contains : List Text → Text → Bool
contains xs s = any (λ x. text_eq x s) xs

-- {symbol: …} without repeats: `seen.add` and `result.append` of `unique_normalized_symbols`
unfoldable pub add_once : List Text → Text → List Text
unfolding text_eq
add_once xs s = if contains xs s then xs else xs ++ s ∷ []

unfoldable pub unique_from : List Text → List Text → List Text
unfolding add_once
unique_from result [] = result
unique_from result (raw ∷ raws) =
    unique_from
      (elim (normalize_subscription_symbol raw) [ ok s ↦ add_once result s | raise _ ↦ result ])
      raws

unfoldable pub unique_normalized_symbols : List Text → List Text
unfolding unique_from
unique_normalized_symbols = unique_from []

-- a - b, of sets of symbols
abbrev pub difference : List Text → List Text → List Text
difference xs ys = select (λ s. not (contains ys s)) xs

-- Code points in order, a prefix first.
unfoldable pub text_le : Text → Text → Bool
text_le [] t = true
text_le (a ∷ s) [] = false
text_le (a ∷ s) (b ∷ t) = ltb a b || (eqb a b && text_le s t)

unfoldable pub insert_sorted : Text → List Text → List Text
unfolding text_le
insert_sorted s [] = s ∷ []
insert_sorted s (t ∷ ts) =
    let later = insert_sorted s ts in if text_le s t then s ∷ t ∷ ts else t ∷ later

unfoldable pub sorted : List Text → List Text
unfolding insert_sorted
sorted [] = []
sorted (s ∷ ss) = insert_sorted s (sorted ss)

pub record ActivePoolConfig : Type 0 where
  pub target_size : ℕ  -- max(0, int(target_size)) where it is used
  pub pinned_max_size : ℕ
  pub rank_metric : Text

pub record InstrumentClassification : Type 0 where
  pub symbol : Text
  pub eligible : Bool
  pub source : Text
  pub excluded_reason : Text

pub record PoolChange : Type 0 where
  pub symbol : Text
  pub disposition : Text
  pub promoted : Bool
  pub added_symbols : List Text
  pub evicted_symbols : List Text
  pub reason : Text

pub record ActiveSymbolPoolManager (R : Type 0) : Type 0 where
  pub config : ActivePoolConfig
  pub query_pinned : List Text
  pub temporary_symbols : List Text
  pub base_active : List Text
  pub active_pool : List Text
  pub ranks_by_symbol : Dict Text R
  pub classification_by_symbol : Dict Text InstrumentClassification
  pub excluded_symbols : Dict Text InstrumentClassification
  pub pool_churn_count : ℕ
  pub last_evicted_symbols : List Text
  pub evicted_symbols : List Text
  pub pinned_pool_full_rejections : ℕ
  pub explicit_base_symbols : Option (List Text)

-- What `rank_active_symbols` returns, keyed by symbol as the manager keeps it.
pub record Ranking (R : Type 0) : Type 0 where
  pub ranks : Dict Text R
  pub classifications : Dict Text InstrumentClassification
  pub excluded : Dict Text InstrumentClassification

-- A change without symbols added or evicted.
abbrev pub plain_change : Text → Text → Bool → Text → PoolChange
plain_change symbol disposition promoted reason = record {
  symbol = symbol;
  disposition = disposition;
  promoted = promoted;
  added_symbols = [];
  evicted_symbols = [];
  reason = reason;
}

module _ {R : Type 0} where
  unfoldable pub init : ActivePoolConfig → List Text → ActiveSymbolPoolManager R
  unfolding unique_normalized_symbols
  init config query_pinned = record {
    config = config;
    query_pinned = unique_normalized_symbols query_pinned;
    temporary_symbols = [];
    base_active = [];
    active_pool = [];
    ranks_by_symbol = [];
    classification_by_symbol = [];
    excluded_symbols = [];
    pool_churn_count = 0;
    last_evicted_symbols = [];
    evicted_symbols = [];
    pinned_pool_full_rejections = 0;
    explicit_base_symbols = none;
  }

  -- The list that the base candidates are taken from.
  abbrev pub base_source : ActiveSymbolPoolManager R → List Text
  base_source m = elim (m.explicit_base_symbols) [
    | some symbols ↦ symbols
    | none ↦ map (λ e. e.0) m.ranks_by_symbol
  ]

  -- `_recompute_active_pool`
  unfoldable pub recompute_active_pool : ActiveSymbolPoolManager R → ActiveSymbolPoolManager R
  unfolding text_eq
  recompute_active_pool m =
      let candidates = difference (base_source m) m.query_pinned in
      let remaining_slots = m.config.target_size - length m.query_pinned in
      let base = take remaining_slots candidates in
      record m { base_active = base; active_pool = m.query_pinned ++ base }

  -- `_record_churn`
  unfoldable pub record_churn : List Text → ActiveSymbolPoolManager R → ActiveSymbolPoolManager R
  record_churn [] m = m
  record_churn (s ∷ ss) m = record m {
    pool_churn_count = m.pool_churn_count + 1;
    last_evicted_symbols = s ∷ ss;
    evicted_symbols = m.evicted_symbols ++ s ∷ ss;
  }

  unfoldable pub rebuild_base_active :
      Ranking R → ActiveSymbolPoolManager R → ActiveSymbolPoolManager R
  unfolding recompute_active_pool
  rebuild_base_active ranking m = recompute_active_pool (record m {
    ranks_by_symbol = ranking.ranks;
    classification_by_symbol = ranking.classifications;
    excluded_symbols = ranking.excluded;
    explicit_base_symbols = none;
  })

  -- `if not self.ranks_by_symbol`, in `bootstrap_explicit_symbols`
  abbrev with_ranks :
      Dict Text R → Ranking R → ActiveSymbolPoolManager R → ActiveSymbolPoolManager R
  with_ranks [] ranking m = record m {
    ranks_by_symbol = ranking.ranks;
    classification_by_symbol = ranking.classifications;
    excluded_symbols = ranking.excluded;
  }
  with_ranks (e ∷ es) ranking m = m

  unfoldable pub bootstrap_explicit_symbols :
      List Text → Ranking R → ActiveSymbolPoolManager R → ActiveSymbolPoolManager R
  unfolding unique_normalized_symbols recompute_active_pool
  bootstrap_explicit_symbols symbols ranking m =
      let m' = record m { explicit_base_symbols = some (unique_normalized_symbols symbols) } in
      recompute_active_pool (with_ranks (m.ranks_by_symbol) ranking m')

  -- The end of `note_query` and of `manual_unpin`: recompute, compare with the pool before, count.
  unfoldable pub settle :
      Text
      → Text
      → Text
      → (List Text → Bool)
      → List Text
      → ActiveSymbolPoolManager R
      → PoolChange × ActiveSymbolPoolManager R
  unfolding recompute_active_pool record_churn sorted text_eq
  settle symbol disposition reason promoted before m =
      let m' = recompute_active_pool m in
      let evicted = sorted (difference before m'.active_pool) in
      (
        record {
          symbol = symbol;
          disposition = disposition;
          promoted = promoted m'.active_pool;
          added_symbols = sorted (difference m'.active_pool before);
          evicted_symbols = evicted;
          reason = reason;
        },
        record_churn evicted m',
      )

  -- `note_query` of a symbol that is normalised already.
  unfoldable pub note_symbol :
      Text → ActiveSymbolPoolManager R → PoolChange × ActiveSymbolPoolManager R
  unfolding recompute_active_pool settle add_once text_eq
  note_symbol symbol m =
      if contains m.active_pool symbol
      then (plain_change symbol (codes "active") false (codes "already_active"), m)
      else if contains m.query_pinned symbol
      then (
        plain_change symbol (codes "pinned") (contains (recompute_active_pool m).active_pool symbol)
            [],
        recompute_active_pool m,
      )
      else if leb m.config.pinned_max_size (length m.query_pinned)
      then (
        plain_change symbol (codes "temporary") false (codes "pinned_pool_full"),
        record m {
          temporary_symbols = add_once m.temporary_symbols symbol;
          pinned_pool_full_rejections = m.pinned_pool_full_rejections + 1;
        },
      )
      else settle symbol (codes "pinned") (codes "query_pinned") (λ pool. contains pool symbol)
          m.active_pool (record m { query_pinned = m.query_pinned ++ symbol ∷ [] })

  unfoldable pub note_query :
      Text → ActiveSymbolPoolManager R → Result (PoolChange × ActiveSymbolPoolManager R)
  unfolding note_symbol
  note_query raw m = do symbol ← normalize_subscription_symbol raw; ok (note_symbol symbol m)

  unfoldable pub manual_pin :
      Text → ActiveSymbolPoolManager R → Result (PoolChange × ActiveSymbolPoolManager R)
  unfolding note_query text_eq
  manual_pin raw m = do
    symbol ← normalize_subscription_symbol raw
    if contains m.query_pinned symbol
        then ok (
          plain_change symbol (codes "pinned") (contains m.active_pool symbol)
              (codes "already_pinned"),
          m,
        )
        else note_query symbol m

  -- `manual_unpin` of a symbol that is normalised already.
  unfoldable pub unpin_symbol :
      Text → ActiveSymbolPoolManager R → PoolChange × ActiveSymbolPoolManager R
  unfolding settle text_eq
  unpin_symbol symbol m =
      if not (contains m.query_pinned symbol)
      then (
        plain_change symbol (codes "not_pinned") false (codes "not_pinned"),
        record m { temporary_symbols = select (λ s. not (text_eq s symbol)) m.temporary_symbols },
      )
      else settle symbol (codes "unpinned") (codes "manual_unpin") (λ pool. false) m.active_pool
          (record m { query_pinned = select (λ s. not (text_eq s symbol)) m.query_pinned })

  unfoldable pub manual_unpin :
      Text → ActiveSymbolPoolManager R → Result (PoolChange × ActiveSymbolPoolManager R)
  unfolding unpin_symbol
  manual_unpin raw m = do symbol ← normalize_subscription_symbol raw; ok (unpin_symbol symbol m)

  unfoldable pub release_temporary :
      Text → ActiveSymbolPoolManager R → Result (ActiveSymbolPoolManager R)
  unfolding text_eq
  release_temporary raw m = do
    symbol ← normalize_subscription_symbol raw
    ok (record m { temporary_symbols = select (λ s. not (text_eq s symbol)) m.temporary_symbols })

  -- `_explain_reason`
  unfoldable pub explain_reason :
      Text → Option R → Option InstrumentClassification → ActiveSymbolPoolManager R → Text
  unfolding text_eq
  explain_reason symbol rank classification m =
      if contains m.query_pinned symbol
      then codes "query_pinned"
      else if contains m.temporary_symbols symbol
      then codes "temporary_pinned_pool_full"
      else if contains m.base_active symbol
      then codes "ranked_by_" ++ m.config.rank_metric
      else let unranked : Text = elim rank [
        | none ↦ codes "not_ranked"
        | some _ ↦ codes "below_active_pool_cutoff"
      ] in
        elim classification [
          | none ↦ unranked
          | some c ↦ if not c.eligible then c.excluded_reason else unranked
        ]
