-- ===== src/Node/Polling/InFlight.antt =====
-- The transmission cache next to the reliable context of the only RELIABLE channel: it holds the
-- frames in flight, each as often, with what was sent under their numbers.
use relinow.Prelude.{
  ℕ, ◌+◌, ◌-◌, ◌≤◌, ◌<◌, ◌≡◌, ◌≢◌, refl, sym, subst, ◌∙◌, inl, inr, List, ◌∷◌, some, true, false,
  ◌==◌, ==_iff, arith, length, length-set, get_or, get_or-set_self, get_or-set_ne, set, find_index,
  find_index-some, count, count-set, count_of_none, to_nat, min, Bool-cases, Option-cases,
}
use mathlib.Core.List.{Mem, mem-cons_self, mem-cons_of_mem}
use relinow.Reliable.{Ctx}
use relinow.Reliable.Slots.{in_flight, used_pending, count-not, count_of_some}
use relinow.Node.Types.{Node, Cached, zero_cached}
use relinow.Node.Caches.{is_cached, is_free_cached, release, tx_cache_find, tx_cache_remove}
use relinow.Node.Sending.{cached}

-- How many slots are in use, and how many hold a number.
abbrev pub used_cached : List Cached → ℕ
used_cached cache = count (λ (slot : Cached). slot.in_use) cache

abbrev pub cached_as : List Cached → ℕ → ℕ
cached_as cache q = count (is_cached q) cache

-- The messages that were sent, each with its number.
abbrev pub History : Type 0
History = List (ℕ × List ℕ)

-- What a slot of such a message holds, which is no longer than `limit`.
pub record IsOf (limit : ℕ) (history : History) (slot : Cached) : Type 0 where
  pub there : Mem (slot.seq_id, slot.payload) history
  pub whole : slot ≡ cached slot.seq_id 0 slot.payload
  pub small : slot.seq_id < 65536
  pub fits : length slot.payload ≤ limit

-- The cache holds the numbers in flight, each as often, and its slots in use are of the history.
pub record IsAgreeing (limit : ℕ) (cache : List Cached) (ctx : Ctx) (history : History)
    : Type 0 where
  pub size : length cache ≡ 16
  pub used : used_cached cache ≡ used_pending ctx
  pub same : (q : ℕ) → cached_as cache q ≡ in_flight ctx q
  pub content :
      (j : ℕ)
      → (get_or cache j zero_cached).in_use ≡ true
      → IsOf limit history (get_or cache j zero_cached)

older-IsOf :
    (limit : ℕ) (history : History) (q : ℕ) (payload : List ℕ) (slot : Cached)
    → IsOf limit history slot
    → IsOf limit ((q, payload) ∷ history) slot
older-IsOf limit history q payload slot v = record {
  there = mem-cons_of_mem _ v.there;
  whole = v.whole;
  small = v.small;
  fits = v.fits;
}

module _ (limit : ℕ) (cache : List Cached) (ctx ctx' : Ctx) (history : History)
    (h : IsAgreeing limit cache ctx history) (q : ℕ) where
  -- A message that is sent is stored in a free slot,
  pub stored-IsAgreeing :
      (s : ℕ) (payload : List ℕ)
      → find_index is_free_cached cache ≡ some s
      → q < 65536
      → length payload ≤ limit
      → used_pending ctx' ≡ used_pending ctx + 1
      → ((r : ℕ) → in_flight ctx' r ≡ in_flight ctx r + to_nat (q == r))
      → IsAgreeing limit (set cache s (cached q 0 payload)) ctx' ((q, payload) ∷ history)
  stored-IsAgreeing s payload free small fits used flying =
      let slot = cached q 0 payload in
      let (inside, unused) = find_index-some is_free_cached cache s zero_cached free in
      record {
        size = length-set cache s slot ∙ h.size;
        used = ground (
          arith,
          h.used,
          used,
          count-set (λ (x : Cached). x.in_use) cache s slot zero_cached inside,
        );
        same = λ r.
            ground
              (arith, h.same r, flying r, count-set (is_cached r) cache s slot zero_cached inside);
        content = λ j there. elim (Bool-cases (s == j)) [
          | inl here ↦
              let same_slot = (==_iff s j).0 here in
              rw (← same_slot, get_or-set_self cache s slot zero_cached inside)
                (record { there = mem-cons_self; whole = refl; small = small; fits = fits })
          | inr other ↦
              let apart : s ≢ j = ground arith in
              let unchanged = get_or-set_ne cache s j slot zero_cached apart in
              let there' = rw unchanged at there in
              rw unchanged (older-IsOf limit history q payload _ (h.content j there'))
        ];
      }

  -- there is a free slot as long as the context has room,
  pub slot_free : used_pending ctx < 16 → (s : ℕ) × (find_index is_free_cached cache ≡ some s)
  slot_free room = elim (Option-cases (find_index is_free_cached cache)) [
    | inl full ↦ absurd (
        omega (
          arith,
          h.size,
          h.used,
          count_of_none is_free_cached cache full,
          count-not (λ (x : Cached). x.in_use) cache,
        ))
    | inr found ↦ found
  ]

  -- and a number that leaves the context leaves the cache.
  pub released-IsAgreeing :
      (s : ℕ)
      → find_index (is_cached q) cache ≡ some s
      → used_pending ctx' + min 1 (in_flight ctx q) ≡ used_pending ctx
      → ((r : ℕ) → in_flight ctx' r ≡ in_flight ctx r - to_nat (q == r))
      → IsAgreeing limit (release cache s) ctx' history
  released-IsAgreeing s found used flying =
      let slot : Cached = record (get_or cache s zero_cached) { in_use = false } in
      let (inside, there) = find_index-some (is_cached q) cache s zero_cached found in
      let present = count_of_some (is_cached q) cache s found in
      record {
        size = length-set cache s slot ∙ h.size;
        used = ground (
          arith,
          h.used,
          h.same q,
          used,
          present,
          count-set (λ (x : Cached). x.in_use) cache s slot zero_cached inside,
        );
        same = λ r.
            ground
              (arith, h.same r, flying r, count-set (is_cached r) cache s slot zero_cached inside);
        content = λ j used_there. elim (Bool-cases (s == j)) [
          | inl here ↦
              let same_slot = (==_iff s j).0 here in
              let gone =
                rw (← same_slot, get_or-set_self cache s slot zero_cached inside) at used_there in
              absurd (ground arith)
          | inr other ↦
              let apart : s ≢ j = ground arith in
              let unchanged = get_or-set_ne cache s j slot zero_cached apart in
              let there' = rw unchanged at used_there in rw unchanged (h.content j there')
        ];
      }

  -- So it is with `relinow_tx_cache_remove`, also where the number is not there.
  pub tx_cache_remove-IsAgreeing :
      (node : Node)
      → node.tx_cache ≡ cache
      → used_pending ctx' + min 1 (in_flight ctx q) ≡ used_pending ctx
      → ((r : ℕ) → in_flight ctx' r ≡ in_flight ctx r - to_nat (q == r))
      → IsAgreeing limit (tx_cache_remove node q).tx_cache ctx' history
  unfolding tx_cache_remove tx_cache_find
  tx_cache_remove-IsAgreeing node same used flying =
      elim (Option-cases (find_index (is_cached q) cache)) [
        | inl absent ↦
            let none_there = count_of_none (is_cached q) cache absent in
            let kept : (r : ℕ) → in_flight ctx' r ≡ in_flight ctx r = λ r.
              elim (Bool-cases (q == r)) [
                | inl here ↦
                    let here' = (==_iff q r).0 here in
                    let gone : in_flight ctx r ≡ 0 =
                      rw (← here') (omega (arith, h.same q, none_there)) in
                    omega (arith, flying r, gone)
                | inr other ↦ ground (arith, flying r)
              ] in
            rw (same, tx_cache_remove, absent, same)
              (record {
                size = h.size;
                used = omega (arith, h.used, used, h.same q, none_there);
                same = λ r. omega (arith, h.same r, kept r);
                content = h.content;
              })
        | inr (s, found) ↦
            rw (same, tx_cache_remove, found)
              (subst (λ (xs : List Cached). IsAgreeing limit (release xs s) ctx' history) (sym same)
                (released-IsAgreeing s found used flying))
      ]
