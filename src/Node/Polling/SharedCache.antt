-- ===== src/Node/Polling/SharedCache.antt =====
-- The transmission cache is one for all channels, and is searched by the number alone.
use relinow.Prelude.{
  ℕ, ◌≤◌, ◌<◌, ◌≡◌, ◌≢◌, refl, sym, ap, ◌∙◌, subst, inl, inr, List, [], ◌∷◌, ◌++◌, none, some, Bool,
  false, ◌==◌, ==_iff, ltb, ltb→lt, arith, length, get_or, set, get_or-set_self, get_or-set_ne,
  find_index, find_index-some, find_index_first, Bool-cases,
}
use relinow.Packet
use relinow.Packet.{Header, header_bytes, validate_header, mode_reliable}
use relinow.Packet.Validate.{validate_header_iff}
use relinow.Reliable.{tx_retransmit}
use relinow.State.Peers.RoundTrip.{find_index-set_first}
use relinow.State.ReliableMode.{reliable_send}
use relinow.Node.Types.{
  max_payload_size, esp_ok, transmitted, Radio, World, Cached, zero_cached, emit,
}
use relinow.Node.Caches.{is_cached, is_free_cached, tx_cache_find}
use relinow.Node.Frames.{frame_header}
use relinow.Node.Frames.Wire.{sent_valid}
use relinow.Node.Sending.{unset_tx, cached, send_whole}
use relinow.Node.Polling.{retransmit}
use relinow.Node.Polling.SentWhole.{whole_frame, IsCachedAt, send_whole-IsCachedAt}

-- Writing behind the entry that a search finds leaves it the first.
find_index-set_after {ℓ} :
    {A : Type ℓ} (p : A → Bool) (xs : List A) (j k : ℕ) (v : A)
    → find_index p xs ≡ some j
    → j < k
    → find_index p (set xs k v) ≡ some j
unfolding find_index
find_index-set_after p [] j k v h less = absurd (ground arith)
find_index-set_after p (x ∷ xs) j ℕ.zero v h less = absurd (omega arith)
find_index-set_after p (x ∷ xs) ℕ.zero (ℕ.suc k) v h less = ground arith
find_index-set_after p (x ∷ xs) (ℕ.suc j) (ℕ.suc k) v h less =
    ground (arith, find_index-set_after p xs j k v)

module _ (cache : List Cached) (q j k : ℕ) (first second : List ℕ)
    (free : find_index is_free_cached cache ≡ some j)
    (absent : find_index (is_cached q) cache ≡ none) where
  abbrev one_cached : List Cached
  one_cached = set cache j (cached q 0 first)

  inside : j < length cache
  inside = (find_index-some is_free_cached cache j zero_cached free).0

  there : get_or one_cached j zero_cached ≡ cached q 0 first
  there = get_or-set_self cache j (cached q 0 first) zero_cached inside

  -- The slots are taken from the front,
  in_front : find_index is_free_cached one_cached ≡ some k → j < k
  in_front free' =
      let is_free = (find_index-some is_free_cached one_cached k zero_cached free').1 in
      elim (Bool-cases (ltb j k)) [
        | inl less ↦ ltb→lt j k less
        | inr not_less ↦ elim (Bool-cases (k == j)) [
          | inl same ↦
              let is_free' = rw ((==_iff k j).0 same, there) at is_free in absurd (ground arith)
          | inr other ↦
              let apart : j ≢ k = ground arith in
              let taken =
                find_index_first is_free_cached cache j k zero_cached free (ground arith) in
              let is_free' =
                rw (get_or-set_ne cache j k (cached q 0 first) zero_cached apart) at is_free in
              absurd (ground arith)
        ]
      ]

  -- so the search finds the first one.
  first_found :
      find_index is_free_cached one_cached ≡ some k
      → (find_index (is_cached q) (set one_cached k (cached q 0 second)) ≡ some j)
        × (get_or (set one_cached k (cached q 0 second)) j zero_cached ≡ cached q 0 first)
  first_found free' =
      let less = in_front free' in
      let apart : k ≢ j = ground arith in
      (
        find_index-set_after (is_cached q) one_cached j k (cached q 0 second)
            (find_index-set_first (is_cached q) cache j (cached q 0 first) absent inside
              (ground arith))
            less,
        get_or-set_ne one_cached k j (cached q 0 second) zero_cached apart ∙ there,
      )

-- A header that is valid for one channel and payload length, and for another of each, is valid for
-- the one's channel and the other's length.
crossed-valid :
    (c d q max_payload : ℕ) (first second : List ℕ)
    → validate_header (frame_header (whole_frame c q first)) max_payload ≡ Packet.ok
    → validate_header (frame_header (whole_frame d q second)) max_payload ≡ Packet.ok
    → validate_header (frame_header (whole_frame d q first)) max_payload ≡ Packet.ok
crossed-valid c d q max_payload first second a b =
    let fits =
      ((validate_header_iff (frame_header (whole_frame c q first)) max_payload (omega arith)).0
        a).fits in
    let w =
      (validate_header_iff (frame_header (whole_frame d q second)) max_payload (omega arith)).0 b in
    (validate_header_iff (frame_header (whole_frame d q first)) max_payload (omega arith)).1
      (record {
        version_known = w.version_known;
        mode_known = w.mode_known;
        type_known = w.type_known;
        reserved_clear = w.reserved_clear;
        fits = fits;
        heartbeat = w.heartbeat;
        ack_empty = λ e. absurd (omega (arith, e));
        unacknowledged = λ e. refl;
        fragment_reliable = w.fragment_reliable;
        last_is_fragment = w.last_is_fragment;
      })

-- A retransmission sends the cached payload that the search by number finds.
pub retransmit-cached :
    (radio : Radio) (u : World) (other q j : ℕ) (first : List ℕ)
    → find_index (is_cached q) u.node.tx_cache ≡ some j
    → get_or u.node.tx_cache j zero_cached ≡ cached q 0 first
    → validate_header (frame_header (whole_frame other q first)) u.node.max_payload ≡ Packet.ok
    → length first ≤ max_payload_size
    → let frame = header_bytes (frame_header (whole_frame other q first)) ++ first in
      let erc = radio u.log u.node.peer_mac frame in
      retransmit radio u
        (record { channel_id = other; tx = record { event = tx_retransmit; seq_id = q } })
      ≡ (erc, emit u (transmitted u.node.peer_mac frame erc))
unfolding retransmit tx_cache_find
retransmit-cached radio u other q j first found slot valid short =
    let fits =
      ((validate_header_iff (frame_header (whole_frame other q first)) u.node.max_payload
          (omega arith)).0
        valid).fits in
    let small : ltb u.node.max_payload (length first) ≡ false = ground (arith, fits) in
    rw (found, retransmit, slot)
      (sent_valid radio u (whole_frame other q first) first refl refl small short valid)

-- What `relinow_state_reliable_send` numbers the next frame of a channel.
abbrev pub next_number : World → ℕ → ℕ → ℕ
next_number w channel_id now_ms =
    (reliable_send w.node.state w.node.peer_index channel_id now_ms unset_tx).2.seq_id

-- The world after a message that fits one frame.
abbrev pub after_whole : Radio → World → ℕ → List ℕ → ℕ → World
after_whole radio w channel_id payload now_ms = (send_whole radio w channel_id payload now_ms).1

-- Two messages that fit one frame each are sent with success on two channels under the same number,
-- which no cached frame carried before. A retransmission of the second one then sends the first
-- channel's payload on the second channel, under the number of the second message.
pub resends_other_payload :
    (radio : Radio) (w : World) (channel other q : ℕ) (first second : List ℕ) (now_ms later_ms : ℕ)
    → tx_cache_find w.node q ≡ none
    → (send_whole radio w channel first now_ms).0 ≡ esp_ok
    → next_number w channel now_ms ≡ q
    → (send_whole radio (after_whole radio w channel first now_ms) other second later_ms).0 ≡ esp_ok
    → next_number (after_whole radio w channel first now_ms) other later_ms ≡ q
    → let sent =
        after_whole radio (after_whole radio w channel first now_ms) other second later_ms in
      let frame = header_bytes (frame_header (whole_frame other q first)) ++ first in
      let erc = radio sent.log sent.node.peer_mac frame in
      retransmit radio sent
        (record { channel_id = other; tx = record { event = tx_retransmit; seq_id = q } })
      ≡ (erc, emit sent (transmitted sent.node.peer_mac frame erc))
unfolding tx_cache_find
resends_other_payload radio w channel other q first second now_ms later_ms absent ok number ok'
      number' =
    let w' = after_whole radio w channel first now_ms in
    let sent = after_whole radio w' other second later_ms in
    let a =
      subst (λ n. IsCachedAt w channel first n w') number
        (send_whole-IsCachedAt radio w channel first now_ms ok) in
    let b =
      subst (λ n. IsCachedAt w' other second n sent) number'
        (send_whole-IsCachedAt radio w' other second later_ms ok') in
    let free' = rw a.cache at b.free in
    let cache = b.cache ∙ ap (λ (l : List Cached). set l b.slot (cached q 0 second)) a.cache in
    let (found, slot) =
      first_found w.node.tx_cache q a.slot b.slot first second a.free absent free' in
    let valid = crossed-valid channel other q w.node.max_payload first second a.valid (
      subst (λ m. validate_header (frame_header (whole_frame other q second)) m ≡ Packet.ok) a.room
        b.valid) in
    let room = b.room ∙ a.room in
    retransmit-cached radio sent other q a.slot first
      (subst (λ l. find_index (is_cached q) l ≡ some a.slot) (sym cache) found)
      (subst (λ l. get_or l a.slot zero_cached ≡ cached q 0 first) (sym cache) slot)
      (subst (λ m. validate_header (frame_header (whole_frame other q first)) m ≡ Packet.ok)
        (sym room) valid)
      a.short
