-- ===== src/Reliable/Receiving.antt =====
-- The receiving side: the reorder buffer and `relinow_reliable_on_data`.
use relinow.Prelude.{
  ℕ, suc, List, [], ◌∷◌, none, some, Bool, true, false, not, ◌&&◌, ◌==◌, if◌then◌else◌, sub16,
  get_or, set, find_index,
}
use relinow.Packet.{Err, ok, seq_next, is_seq_newer}
use relinow.Reliable.Types.{
  max_reorder, RxStatus, RxResult, Reorder, Ctx, zero_reorder, rx_delivered, rx_out_of_order,
  rx_duplicate, rx_dropped,
}

abbrev pub is_buffered : ℕ → Reorder → Bool
is_buffered seq_id slot = slot.in_use && slot.seq_id == seq_id

abbrev pub is_free_reorder : Reorder → Bool
is_free_reorder slot = not slot.in_use

-- `relinow_reorder_contains`
unfoldable pub reorder_contains : Ctx → ℕ → Bool
reorder_contains ctx seq_id = elim (find_index (is_buffered seq_id) ctx.reorder) [
  | none ↦ false
  | some i ↦ true
]

-- `relinow_reorder_insert`
unfoldable pub reorder_insert : Ctx → ℕ → Bool × Ctx
reorder_insert ctx seq_id = elim (find_index is_free_reorder ctx.reorder) [
  | none ↦ (false, ctx)
  | some i ↦
      (true, record ctx { reorder = set ctx.reorder i (record { in_use = true; seq_id = seq_id }) })
]

-- `relinow_reorder_take_expected`
unfoldable pub reorder_take_expected : Ctx → ℕ → Bool × Ctx
reorder_take_expected ctx expected = elim (find_index (is_buffered expected) ctx.reorder) [
  | none ↦ (false, ctx)
  | some i ↦ (
    true,
    record ctx {
      reorder = set ctx.reorder i (record (get_or ctx.reorder i zero_reorder) { in_use = false });
    },
  )
]

-- The loop of `relinow_reliable_on_data`, with the room that is left in `delivered_seq` as fuel.
unfoldable pub drain : ℕ → Ctx → Ctx × List ℕ
drain ℕ.zero ctx = (ctx, [])
drain (suc room) ctx =
    let (taken, ctx') = reorder_take_expected ctx ctx.expected_rx_seq in
    let rest = drain room (record ctx' { expected_rx_seq = seq_next ctx'.expected_rx_seq }) in
    elim taken [ true ↦ (rest.0, ctx.expected_rx_seq ∷ rest.1) | false ↦ (ctx', []) ]

-- `(uint16_t)(ctx->expected_rx_seq - 1u)`
abbrev pub last_in_order : Ctx → ℕ
last_in_order ctx = sub16 ctx.expected_rx_seq 1

-- The branch of `relinow_reliable_on_data` for the expected number.
unfoldable pub deliver_expected : Ctx → ℕ → Err × Ctx × RxResult
deliver_expected ctx seq_id =
    let (ctx', rest) =
      drain max_reorder (record ctx { expected_rx_seq = seq_next ctx.expected_rx_seq }) in
    (
      ok,
      ctx',
      record { status = rx_delivered; delivered = seq_id ∷ rest; ack_id = last_in_order ctx' },
    )

-- A result that delivers nothing.
abbrev pub nothing_delivered : RxStatus → Ctx → RxResult
nothing_delivered status ctx = record {
  status = status;
  delivered = [];
  ack_id = last_in_order ctx;
}

-- Its branch for a newer number.
unfoldable pub buffer_newer : Ctx → ℕ → Err × Ctx × RxResult
buffer_newer ctx seq_id =
    if reorder_contains ctx seq_id
    then (ok, ctx, nothing_delivered rx_out_of_order ctx)
    else let (inserted, ctx') = reorder_insert ctx seq_id in
      if inserted
      then (ok, ctx', nothing_delivered rx_out_of_order ctx')
      else (ok, ctx', nothing_delivered rx_dropped ctx')

-- `relinow_reliable_on_data`: it clears `*out_result`, the last result, first.
unfoldable pub on_data : Ctx → ℕ → Err × Ctx × RxResult
on_data ctx seq_id =
    if not ctx.has_rx_window
    then (
      ok,
      record ctx { has_rx_window = true; expected_rx_seq = seq_next seq_id },
      record { status = rx_delivered; delivered = seq_id ∷ []; ack_id = seq_id },
    )
    else if seq_id == ctx.expected_rx_seq
    then deliver_expected ctx seq_id
    else if is_seq_newer seq_id ctx.expected_rx_seq
    then buffer_newer ctx seq_id
    else (ok, ctx, nothing_delivered rx_duplicate ctx)
