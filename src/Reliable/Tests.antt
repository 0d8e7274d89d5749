-- ===== src/Reliable/Tests.antt =====
-- The reliable context at concrete values.
use relinow.Prelude.{
  ℕ, ◌+◌, ◌*◌, ◌≤◌, ◌≡◌, ◌≢◌, ◌⊎◌, refl, [], ◌∷◌, some, true, false, arith, length, min, max, count,
  ◌==◌, find_index, get_or, to_nat, ◌<◌, ◌-◌, ◌/◌, All, All-set, All-replicate,
}
use relinow.Packet
use relinow.Packet.{seq_next, is_seq_newer}
use relinow.Reliable.Types.{
  Ctx, TxResult, tx_none, tx_new, tx_retransmit, tx_failed, rx_duplicate, zero_pending,
}
use relinow.Reliable.Setup.{default_config, init}
use relinow.Reliable.Sending.{
  send, on_ack, poll, sent_slot, compute_timeout_ms, smoothed_rtt_ms, expire,
}
use relinow.Reliable.Receiving.{
  on_data, buffer_newer, reorder_contains, reorder_insert, deliver_expected, drain,
  reorder_take_expected,
}
use relinow.Reliable.Slots.{in_flight, used_pending, buffered}
use relinow.Reliable.Timeout.{
  compute_timeout_ms_lem, smoothed_rtt_ms_lem, ideal_timeout_ms, sample_ms,
}
use relinow.Reliable.Sender.{send_lem, on_ack_lem}
use relinow.Reliable.Expiry.{HasRunOut, pending_at, IsRestarted, timers_run_out}
use relinow.Reliable.Retries.{attempts, poll_all, poll_all_bounded}
use relinow.Reliable.Draining.{IsOlder, poll_all_drains}
use relinow.Reliable.Receiver.{IsReceiver, IsReceived, next_due, consecutive, advance}
use relinow.Reliable.Delivery.{on_data_lem, receive_all, receive_all_in_order}
use relinow.Reliable.Acknowledge.{first_frame_decides, gap_fill_stranded}
use relinow.Reliable.Invariant.{IsValid, init-IsValid, send-IsValid}
use relinow.Reliable.Calls.{sends, acknowledged, polls, received, call_all, call_all-IsValid}

abbrev fresh : Ctx
fresh = init (some default_config)

abbrev no_result : TxResult
no_result = record { event = tx_none; seq_id = 0 }

-- Number 0 is in flight since time 10.
abbrev one_sent : Ctx
one_sent = (send fresh 10 no_result).1

-- A receiver that has seen 5, and one that has seen 7 as well and waits for 6.
abbrev after_5 : Ctx
after_5 = (on_data fresh 5).1

abbrev with_gap : Ctx
with_gap = (on_data after_5 7).1

fresh-IsReceiver : IsReceiver fresh
fresh-IsReceiver = (init-IsValid default_config (omega arith) (omega arith) (omega arith)).receiver

after_5-IsReceiver : IsReceiver after_5
after_5-IsReceiver = (on_data_lem fresh 5 fresh-IsReceiver (omega arith)).1.receiver

with_gap-IsReceiver : IsReceiver with_gap
with_gap-IsReceiver = (on_data_lem after_5 7 after_5-IsReceiver (omega arith)).1.receiver

-- Frames 7, 6, 6 and 9 after 5: 6 and 7 are delivered, 9 waits.
delivery_test : (receive_all after_5 (7 ∷ 6 ∷ 6 ∷ 9 ∷ [])).1 ≡ 6 ∷ 7 ∷ []
unfolding receive_all on_data init seq_next is_seq_newer buffer_newer reorder_contains find_index
    reorder_insert deliver_expected drain reorder_take_expected
delivery_test = refl

-- Sent at 10, with the timeout of 300 ms.
retransmit_test : (poll one_sent 310).2 ≡ record { event = tx_retransmit; seq_id = 0 }
unfolding poll send init find_index compute_timeout_ms expire
retransmit_test = refl

receive_all_in_order_example :
    let (last, delivered) = receive_all after_5 (7 ∷ 6 ∷ 6 ∷ 9 ∷ []) in
    (delivered ≡ consecutive after_5.expected_rx_seq (length delivered))
    × (last.expected_rx_seq ≡ advance after_5.expected_rx_seq (length delivered))
    × ((s : ℕ)
        → buffered last s + count (λ d. d == s) delivered
          ≤ buffered after_5 s + count (λ d. d == s) (7 ∷ 6 ∷ 6 ∷ 9 ∷ []))
    × IsReceiver last
unfolding on_data init
receive_all_in_order_example =
    receive_all_in_order after_5 (7 ∷ 6 ∷ 6 ∷ 9 ∷ []) after_5-IsReceiver refl (omega arith)

on_data_lem_example :
    let (rc, ctx', result) = on_data with_gap 6 in
    (rc ≡ Packet.ok) × IsReceived with_gap 6 (next_due with_gap 6) ctx' result
on_data_lem_example = on_data_lem with_gap 6 with_gap-IsReceiver (omega arith)

call_all-IsValid_example :
    IsValid
      (call_all fresh (sends 10 ∷ received 5 (omega arith) ∷ polls 310 ∷ acknowledged 0 320 ∷ []))
call_all-IsValid_example =
    call_all-IsValid default_config
      (sends 10 ∷ received 5 (omega arith) ∷ polls 310 ∷ acknowledged 0 320 ∷ []) (omega arith)
      (omega arith) (omega arith)

-- A window of one frame is not full.
send_lem_example :
    let (rc, ctx', result) = send one_sent 20 no_result in
    ((used_pending one_sent ≡ length one_sent.pending)
      × (rc ≡ Packet.invalid_packet)
      × (ctx' ≡ one_sent)
      × (result ≡ no_result))
    ⊎ ((used_pending one_sent < length one_sent.pending)
        × (rc ≡ Packet.ok)
        × (result ≡ record { event = tx_new; seq_id = one_sent.next_tx_seq })
        × (ctx'.next_tx_seq ≡ seq_next one_sent.next_tx_seq)
        × (used_pending ctx' ≡ used_pending one_sent + 1)
        × ((q : ℕ) → in_flight ctx' q ≡ in_flight one_sent q + to_nat (one_sent.next_tx_seq == q))
        × ((j : ℕ)
            → (get_or one_sent.pending j zero_pending).in_use ≡ true
            → get_or ctx'.pending j zero_pending ≡ get_or one_sent.pending j zero_pending))
send_lem_example = send_lem one_sent 20 no_result

on_ack_lem_example :
    let (event, ctx') = on_ack one_sent 0 20 in
    (event ≡ tx_none)
    × ((q : ℕ) → in_flight ctx' q ≡ in_flight one_sent q - to_nat (0 == q))
    × (used_pending ctx' + min 1 (in_flight one_sent 0) ≡ used_pending one_sent)
    × (ctx'.next_tx_seq ≡ one_sent.next_tx_seq)
    × ((0 < in_flight one_sent 0) ⊎ (ctx' ≡ one_sent))
on_ack_lem_example = on_ack_lem one_sent 0 20

-- The timer of the frame sent at 10 has run out at 310.
timers_run_out_example :
    let (rc, ctx', result) = poll one_sent 310 in
    (rc ≡ Packet.ok)
    × (((result.event ≡ tx_none)
          × (ctx' ≡ one_sent)
          × ((j : ℕ) → j < length one_sent.pending → ¬ HasRunOut 310 (pending_at one_sent j)))
        ⊎ ((i : ℕ) × HasRunOut 310 (pending_at one_sent i)
            × ((j : ℕ) → j < i → ¬ HasRunOut 310 (pending_at one_sent j))
            × (result.seq_id ≡ (pending_at one_sent i).seq_id)
            × ((j : ℕ) → j ≢ i → pending_at ctx' j ≡ pending_at one_sent j)
            × (((result.event ≡ tx_retransmit)
                  × ((pending_at one_sent i).retries < one_sent.cfg.max_retries)
                  × IsRestarted one_sent 310 (pending_at one_sent i) (pending_at ctx' i))
                ⊎ ((result.event ≡ tx_failed)
                    × (one_sent.cfg.max_retries ≤ (pending_at one_sent i).retries)
                    × ((pending_at ctx' i).in_use ≡ false)))))
unfolding send find_index init
timers_run_out_example = timers_run_out one_sent 310 (omega arith)

poll_all_bounded_example :
    let (last, events) = poll_all one_sent (310 ∷ 311 ∷ 1000 ∷ 2000 ∷ 4000 ∷ []) in
    (events ≤ used_pending one_sent * (one_sent.cfg.max_retries + 1))
    × (used_pending last + events ≤ attempts one_sent)
unfolding send init find_index
poll_all_bounded_example =
    poll_all_bounded one_sent (310 ∷ 311 ∷ 1000 ∷ 2000 ∷ 4000 ∷ []) (omega arith)

one_sent-IsOlder : All (IsOlder 10) one_sent.pending
unfolding send init find_index
one_sent-IsOlder =
    All-set (IsOlder 10) fresh.pending 0 (sent_slot fresh 10)
      (All-replicate (IsOlder 10) 16 zero_pending (λ busy. absurd (ground arith)))
      (λ busy. omega arith)

poll_all_drains_example :
    used_pending (poll_all one_sent (65600 ∷ 140000 ∷ 210000 ∷ 300000 ∷ [])).0 ≡ 0
unfolding send init find_index count
poll_all_drains_example =
    poll_all_drains one_sent 10 (65600 ∷ 140000 ∷ 210000 ∷ 300000 ∷ [])
      (send-IsValid fresh 10 no_result
        (init-IsValid default_config (omega arith) (omega arith) (omega arith)))
      one_sent-IsOlder
      (
        omega arith,
        omega arith,
        (omega arith, omega arith, (omega arith, omega arith, (omega arith, omega arith, tt))),
      )
      (omega arith)

compute_timeout_ms_lem_example :
    compute_timeout_ms 40000 1 ≡ min 65535 (max 1 (ideal_timeout_ms 40000 1))
compute_timeout_ms_lem_example = compute_timeout_ms_lem 40000 1 (omega arith)

smoothed_rtt_ms_lem_example :
    let new = smoothed_rtt_ms fresh 10 90 in
    (new
      ≡ max 1 (
          ((256 - fresh.cfg.rtt_alpha_q8) * fresh.rtt_estimate_ms
            + fresh.cfg.rtt_alpha_q8 * sample_ms 10 90)
          / 256))
    × (min fresh.rtt_estimate_ms (sample_ms 10 90) ≤ new)
    × (new ≤ max fresh.rtt_estimate_ms (sample_ms 10 90))
    × (1 ≤ new)
    × (new < 65536)
unfolding init
smoothed_rtt_ms_lem_example = smoothed_rtt_ms_lem fresh 10 90 (omega arith) (omega arith)

first_frame_decides_example :
    let (_, opened, _) = on_data fresh 5 in
    let (_, after, result) = on_data opened 4 in
    (after ≡ opened)
    × (result.status ≡ rx_duplicate)
    × (result.delivered ≡ [])
    × (result.ack_id ≡ 5)
unfolding init is_seq_newer
first_frame_decides_example = first_frame_decides fresh 5 4 refl (omega arith) (omega arith) refl

gap_fill_stranded_example :
    let (_, receiver', result) = on_data with_gap with_gap.expected_rx_seq in
    let (_, sender') = on_ack one_sent result.ack_id 400 in
    let (_, receiver'', again) = on_data receiver' with_gap.expected_rx_seq in
    let (_, sender'') = on_ack sender' again.ack_id 700 in
    (in_flight sender' with_gap.expected_rx_seq ≡ in_flight one_sent with_gap.expected_rx_seq)
    × (receiver'' ≡ receiver')
    × (in_flight sender'' with_gap.expected_rx_seq ≡ in_flight one_sent with_gap.expected_rx_seq)
unfolding on_data init seq_next is_seq_newer buffer_newer reorder_contains find_index reorder_insert
    deliver_expected drain reorder_take_expected
gap_fill_stranded_example =
    gap_fill_stranded one_sent with_gap 400 700 with_gap-IsReceiver refl (omega arith)
