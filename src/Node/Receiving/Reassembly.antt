-- ===== src/Node/Receiving/Reassembly.antt =====
-- Reassembly: the fragments of a message, delivered in order, give the message back.
use relinow.Prelude.{
  ℕ, ◌+◌, ◌≤◌, ◌≡◌, refl, ap, ◌∙◌, List, [], ◌∷◌, ◌++◌, true, false, arith, length, length-append,
  take_all, ltb, u32,
}
use mathlib.Core.List.{append_assoc, append-nil}
use relinow.Packet.{has_flag}
use relinow.Node.Types.{message, Node, World, Cached, emit}
use relinow.Node.Caches.{reassembly_reset}
use relinow.Node.Sending.{cached}
use relinow.Node.Receiving.{with_node, open_reassembly, extend_message, deliver_fragment}

-- Fragments as `relinow_send_reliable` makes them, the last one with its mark, and their bytes.
abbrev pub fragments : List (ℕ × List ℕ) → ℕ → List ℕ → List Cached
fragments [] last_seq last = cached last_seq 3 last ∷ []
fragments ((seq_id, bytes) ∷ parts) last_seq last =
    cached seq_id 1 bytes ∷ fragments parts last_seq last

abbrev pub joined : List (ℕ × List ℕ) → List ℕ → List ℕ
joined [] last = last
joined ((seq_id, bytes) ∷ parts) last = bytes ++ joined parts last

-- The fragments as they are released, one after the other.
unfoldable pub deliver_fragments : World → List ℕ → ℕ → List Cached → ℕ → World
deliver_fragments w mac channel_id [] now_ms = w
deliver_fragments w mac channel_id (slot ∷ slots) now_ms =
    deliver_fragments (deliver_fragment w mac channel_id slot now_ms) mac channel_id slots now_ms

abbrev holding : Node → List ℕ → Node
holding node bytes = record node { reassembly_buf = node.reassembly_buf ++ bytes }

module _ (mac : List ℕ) (channel_id : ℕ) (w : World) (node : Node) where
  middle :
      (seq_id : ℕ) (bytes : List ℕ)
      → length node.reassembly_buf + length bytes ≤ 3856
      → extend_message w mac channel_id (cached seq_id 1 bytes) node
        ≡ with_node w (holding node bytes)
  unfolding extend_message has_flag
  middle seq_id [] fits =
      let small : ltb 3856 (u32 (length node.reassembly_buf + 0)) ≡ false = ground arith in
      rw (append-nil node.reassembly_buf, small) refl
  middle seq_id (b ∷ bytes) fits =
      let small : ltb 3856 (u32 (length node.reassembly_buf + length (b ∷ bytes))) ≡ false =
        ground arith in
      let some_bytes : ltb 0 (length (b ∷ bytes)) ≡ true = ground arith in
      rw (small, some_bytes, take_all (length (b ∷ bytes)) (b ∷ bytes) refl) refl

  ending :
      (seq_id : ℕ) (bytes : List ℕ)
      → length node.reassembly_buf + length bytes ≤ 3856
      → node.on_message ≡ true
      → extend_message w mac channel_id (cached seq_id 3 bytes) node
        ≡ with_node
            (emit w
              (message mac channel_id node.reassembly_first_seq (node.reassembly_buf ++ bytes)))
            (reassembly_reset node)
  unfolding extend_message has_flag reassembly_reset
  ending seq_id [] fits on =
      let small : ltb 3856 (u32 (length node.reassembly_buf + 0)) ≡ false = ground arith in
      rw (append-nil node.reassembly_buf, small, on) refl
  ending seq_id (b ∷ bytes) fits on =
      let small : ltb 3856 (u32 (length node.reassembly_buf + length (b ∷ bytes))) ≡ false =
        ground arith in
      let some_bytes : ltb 0 (length (b ∷ bytes)) ≡ true = ground arith in
      rw (small, some_bytes, take_all (length (b ∷ bytes)) (b ∷ bytes) refl, on) refl

-- The world once a message has been handed over and the buffer is closed.
abbrev told : World → List ℕ → ℕ → ℕ → List ℕ → World
told w mac channel_id seq_id bytes =
    with_node (emit w (message mac channel_id seq_id bytes)) (reassembly_reset w.node)

abbrev opened : Node → ℕ → ℕ → Node
opened node seq_id now_ms = record node {
  reassembly_active = true;
  reassembly_first_seq = seq_id;
  reassembly_buf = [];
  reassembly_start_ms = now_ms;
}

open_reassembly_active :
    (node : Node) (slot : Cached) (now_ms : ℕ)
    → node.reassembly_active ≡ true
    → open_reassembly node slot now_ms ≡ node
open_reassembly_active node slot now_ms active = rw active refl

open_reassembly_idle :
    (node : Node) (slot : Cached) (now_ms : ℕ)
    → node.reassembly_active ≡ false
    → open_reassembly node slot now_ms ≡ opened node slot.seq_id now_ms
open_reassembly_idle node slot now_ms idle = rw idle refl

module _ (mac : List ℕ) (channel_id now_ms last_seq : ℕ) (last : List ℕ) where
  assembling :
      (w : World) (parts : List (ℕ × List ℕ))
      → w.node.reassembly_active ≡ true
      → w.node.on_message ≡ true
      → length w.node.reassembly_buf + length (joined parts last) ≤ 3856
      → deliver_fragments w mac channel_id (fragments parts last_seq last) now_ms
        ≡ told w mac channel_id w.node.reassembly_first_seq
            (w.node.reassembly_buf ++ joined parts last)
  unfolding deliver_fragments deliver_fragment reassembly_reset
  assembling w [] active on fits =
      ap (extend_message w mac channel_id (cached last_seq 3 last))
        (open_reassembly_active w.node (cached last_seq 3 last) now_ms active)
      ∙ ending mac channel_id w w.node last_seq last fits on
  assembling w ((seq_id, bytes) ∷ parts) active on fits =
      let slot = cached seq_id 1 bytes in
      let lengths = length-append bytes (joined parts last) in
      let step =
        ap (extend_message w mac channel_id slot) (open_reassembly_active w.node slot now_ms active)
        ∙ middle mac channel_id w w.node seq_id bytes (omega (arith, lengths)) in
      ap (λ (v : World). deliver_fragments v mac channel_id (fragments parts last_seq last) now_ms)
        step
      ∙ (assembling (with_node w (holding w.node bytes)) parts active on
            (omega (arith, lengths, length-append w.node.reassembly_buf bytes))
          ∙ ap (told w mac channel_id w.node.reassembly_first_seq)
              (append_assoc w.node.reassembly_buf bytes (joined parts last)))

-- A message that was split is handed to the application in one piece: when a node with no open
-- reassembly and with a callback takes the fragments of a message of up to 3856 bytes in order, it
-- reports one message, under the number of the first fragment, of exactly the fragments' bytes, and
-- nothing else; and its reassembly is closed again.
pub fragments_reassemble :
    (w : World) (mac : List ℕ) (channel_id now_ms first_seq last_seq : ℕ) (first last : List ℕ)
    (parts : List (ℕ × List ℕ))
    → w.node.reassembly_active ≡ false
    → w.node.on_message ≡ true
    → length (joined ((first_seq, first) ∷ parts) last) ≤ 3856
    → deliver_fragments w mac channel_id
        (fragments ((first_seq, first) ∷ parts) last_seq last)
        now_ms
      ≡ with_node
          (emit w (message mac channel_id first_seq (joined ((first_seq, first) ∷ parts) last)))
          (reassembly_reset w.node)
unfolding deliver_fragments deliver_fragment reassembly_reset
fragments_reassemble w mac channel_id now_ms first_seq last_seq first last parts idle on fits =
    let slot = cached first_seq 1 first in
    let node = opened w.node first_seq now_ms in
    let lengths = length-append first (joined parts last) in
    let step =
      ap (extend_message w mac channel_id slot) (open_reassembly_idle w.node slot now_ms idle)
      ∙ middle mac channel_id w node first_seq first (omega (arith, lengths)) in
    ap (λ (v : World). deliver_fragments v mac channel_id (fragments parts last_seq last) now_ms)
      step
    ∙ assembling mac channel_id now_ms last_seq last (with_node w (holding node first)) parts refl
        on (omega (arith, lengths))
