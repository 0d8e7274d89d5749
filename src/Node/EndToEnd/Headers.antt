-- ===== src/Node/EndToEnd/Headers.antt =====
-- The headers of a DATA frame that needs no fragments, and of an acknowledgment.
use relinow.Prelude.{ℕ, ◌≤◌, ◌<◌, ◌≡◌, refl, List, arith, length}
use relinow.Packet
use relinow.Packet.{Header, type_ack, mode_reliable, validate_header}
use relinow.Packet.RoundTrip.{IsHeader}
use relinow.Packet.Validate.{validate_header_iff}
use relinow.Node.Frames.{frame_header}
use relinow.Node.Receiving.{empty_frame}
use relinow.Node.Polling.SentWhole.{whole_frame}

abbrev pub ack_header : ℕ → ℕ → Header
ack_header channel_id q = frame_header (empty_frame mode_reliable channel_id type_ack q)

abbrev pub data_header : ℕ → ℕ → List ℕ → Header
data_header channel_id q payload = frame_header (whole_frame channel_id q payload)

module _ (channel_id q : ℕ) (small_id : channel_id < 255) (small : q < 65536) where
  pub ack-IsHeader : IsHeader (ack_header channel_id q)
  ack-IsHeader = record {
    version = omega arith;
    mode = omega arith;
    type = omega arith;
    flags = omega arith;
    seq_id = omega arith;
    ack_id = small;
    channel_id = omega (arith, small_id);
    payload_len = omega arith;
  }

  pub ack_valid :
      (max_payload : ℕ) → validate_header (ack_header channel_id q) max_payload ≡ Packet.ok
  ack_valid max_payload =
      (validate_header_iff (ack_header channel_id q) max_payload (omega arith)).1 (record {
        version_known = refl;
        mode_known = (omega arith, omega arith);
        type_known = (omega arith, omega arith);
        reserved_clear = refl;
        fits = omega arith;
        heartbeat = (λ e. absurd (omega (arith, e, small_id)), λ e. absurd (omega (arith, e)));
        ack_empty = λ e. refl;
        unacknowledged = λ e. absurd (omega (arith, e));
        fragment_reliable = λ e. absurd (omega (arith, e));
        last_is_fragment = λ e. absurd (omega (arith, e));
      })

  module _ (payload : List ℕ) where
    pub data-IsHeader : length payload < 65536 → IsHeader (data_header channel_id q payload)
    data-IsHeader short = record {
      version = omega arith;
      mode = omega arith;
      type = omega arith;
      flags = omega arith;
      seq_id = small;
      ack_id = omega arith;
      channel_id = omega (arith, small_id);
      payload_len = short;
    }

    pub data_valid :
        (max_payload : ℕ)
        → length payload ≤ max_payload
        → validate_header (data_header channel_id q payload) max_payload ≡ Packet.ok
    data_valid max_payload fits =
        (validate_header_iff (data_header channel_id q payload) max_payload (omega arith)).1
          (record {
            version_known = refl;
            mode_known = (omega arith, omega arith);
            type_known = (omega arith, omega arith);
            reserved_clear = refl;
            fits = fits;
            heartbeat = (λ e. absurd (omega (arith, e, small_id)), λ e. absurd (omega (arith, e)));
            ack_empty = λ e. absurd (omega (arith, e));
            unacknowledged = λ e. absurd (omega (arith, e));
            fragment_reliable = λ e. absurd (omega (arith, e));
            last_is_fragment = λ e. absurd (omega (arith, e));
          })
