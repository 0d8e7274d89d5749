-- ===== src/Reliable/Acknowledge.antt =====
-- How an acknowledgment of the receiver and the sender's window meet.
use relinow.Prelude.{ℕ, ◌<◌, ◌≡◌, refl, ◌∙◌, length, ◌≤◌, ◌≢◌, true, false, arith, []}
use relinow.Packet.{is_seq_newer, seq_next}
use relinow.Reliable.Types.{Ctx, rx_duplicate}
use relinow.Reliable.Sending.{on_ack}
use relinow.Reliable.Receiving.{last_in_order, on_data}
use relinow.Reliable.Receiver.{IsReceiver, next_due_opened, on_data_fresh, opened_at}
use relinow.Reliable.Slots.{in_flight}
use relinow.Reliable.Sender.{on_ack_lem}
use relinow.Reliable.Delivery.{on_data_older, on_data_lem}

-- A frame behind the receiver's expected number that is not the very last one delivered is
-- acknowledged under another number. So however often it is sent again, the exchange changes
-- nothing at the receiver and leaves the frame in flight at the sender, although it was delivered.
pub on_ack-on_data_stranded :
    (sender receiver : Ctx) (seq_id now_ms : ℕ)
    → receiver.has_rx_window ≡ true
    → seq_id ≢ receiver.expected_rx_seq
    → is_seq_newer seq_id receiver.expected_rx_seq ≡ false
    → seq_id ≢ last_in_order receiver
    → let (rc, receiver', result) = on_data receiver seq_id in
      let (event, sender') = on_ack sender result.ack_id now_ms in
      (receiver' ≡ receiver)
      × (result.delivered ≡ [])
      × (in_flight sender' seq_id ≡ in_flight sender seq_id)
on_ack-on_data_stranded sender receiver seq_id now_ms has other older last =
    rw (on_data_older receiver seq_id has (ground arith) older)
      (refl, refl, ground (arith, (on_ack_lem sender (last_in_order receiver) now_ms).1 seq_id))

-- A receiver with no window yet, whose first frame is newer than another with a 16-bit number,
-- never delivers that earlier one: it answers it as a repeat, acknowledges the number of the first
-- frame, and stays as it was.
pub first_frame_decides :
    (fresh : Ctx) (opening earlier : ℕ)
    → fresh.has_rx_window ≡ false
    → opening < 65536
    → earlier < 65536
    → is_seq_newer opening earlier ≡ true
    → let (_, opened, _) = on_data fresh opening in
      let (_, after, result) = on_data opened earlier in
      (after ≡ opened)
      × (result.status ≡ rx_duplicate)
      × (result.delivered ≡ [])
      × (result.ack_id ≡ opening)
unfolding is_seq_newer seq_next
first_frame_decides fresh opening earlier unopened small small' older =
    let behind =
      on_data_older (opened_at fresh opening) earlier refl (ground arith) (ground arith) in
    rw (on_data_fresh fresh opening unopened, behind) (refl, refl, refl, omega arith)

-- Where a receiver with an open window and a valid buffer delivers two numbers or more at once
-- when the frame that was due closes a gap, one acknowledgment names the last of them, and the
-- frame itself stays in flight at the sender. Sent again, it changes nothing at the receiver, and
-- its acknowledgment leaves it in flight again.
pub gap_fill_stranded :
    (sender receiver : Ctx) (now_ms later_ms : ℕ)
    → IsReceiver receiver
    → receiver.has_rx_window ≡ true
    → 2 ≤ length (on_data receiver receiver.expected_rx_seq).2.delivered
    → let seq_id = receiver.expected_rx_seq in
      let (_, receiver', result) = on_data receiver seq_id in
      let (_, sender') = on_ack sender result.ack_id now_ms in
      let (_, receiver'', again) = on_data receiver' seq_id in
      let (_, sender'') = on_ack sender' again.ack_id later_ms in
      (in_flight sender' seq_id ≡ in_flight sender seq_id)
      × (receiver'' ≡ receiver')
      × (in_flight sender'' seq_id ≡ in_flight sender seq_id)
unfolding is_seq_newer
gap_fill_stranded sender receiver now_ms later_ms v has two =
    let seq_id = receiver.expected_rx_seq in
    let small = (v.opened has).expected in
    let step = (on_data_lem receiver seq_id v small).1 in
    let receiver' = (on_data receiver seq_id).1 in
    let sender' = (on_ack sender (on_data receiver seq_id).2.ack_id now_ms).1 in
    let next = rw (next_due_opened receiver seq_id has) at step.next in
    let kept = (on_ack_lem sender (on_data receiver seq_id).2.ack_id now_ms).1 seq_id in
    let unacked : in_flight sender' seq_id ≡ in_flight sender seq_id =
      ground (arith, kept, step.ack, next, step.fits) in
    let (same, _, still) =
      on_ack-on_data_stranded sender' receiver' seq_id later_ms step.started
        (omega (arith, next, step.fits)) (ground (arith, next, step.fits))
        (omega (arith, next, step.fits)) in
    (unacked, same, still ∙ unacked)
