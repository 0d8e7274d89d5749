-- ===== src/Packet/Validate.antt =====
-- The rules that `relinow_validate_header` checks, in arithmetic in place of bit masks.
use relinow.Prelude.{
  ℕ, ◌*◌, ◌/◌, ◌%◌, ◌<◌, ◌≤◌, ◌≡◌, refl, ◌↔◌, ◌==◌, ◌&&◌, true, bit_and, arith, holds_below,
  holds_below_lem,
}
use relinow.Packet.{
  Header, ok, protocol_version, mode_reliable, mode_unreliable, mode_priority, type_data, type_ack,
  type_ping, type_pong, heartbeat_channel, validate_header,
}

-- The rules of the code: bit 3 of the flags is reserved, bit 0 is FRAGMENT, bit 1 is
-- LAST_FRAGMENT; the heartbeat channel carries PING and PONG, and nothing else does.
pub record IsWellFormed (h : Header) (max_payload : ℕ) : Type 0 where
  pub version_known : h.version ≡ protocol_version
  pub mode_known : (mode_reliable ≤ h.mode) × (h.mode ≤ mode_priority)
  pub type_known : (type_data ≤ h.type) × (h.type ≤ type_pong)
  pub reserved_clear : h.flags / 8 % 2 ≡ 0
  pub fits : h.payload_len ≤ max_payload
  pub heartbeat : (h.channel_id ≡ heartbeat_channel) ↔ (type_ping ≤ h.type)
  pub ack_empty : h.type ≡ type_ack → h.payload_len ≡ 0
  pub unacknowledged : h.mode ≡ mode_unreliable → h.ack_id ≡ 0
  pub fragment_reliable : h.flags % 2 ≡ 1 → h.mode ≡ mode_reliable
  pub last_is_fragment : h.flags / 2 % 2 ≡ 1 → h.flags % 2 ≡ 1

flag_bits_table :
    holds_below
      (λ f. bit_and f 1 == f % 2 && (bit_and f 2 == f / 2 % 2 * 2 && bit_and f 8 == f / 8 % 2 * 8))
      256
    ≡ true
unfolding holds_below
flag_bits_table = refl

flag_bits :
    (f : ℕ)
    → f < 256
    → (bit_and f 1 ≡ f % 2) × (bit_and f 2 ≡ f / 2 % 2 * 2) × (bit_and f 8 ≡ f / 8 % 2 * 8)
flag_bits f h =
    let checked =
      holds_below_lem
        (λ (f : ℕ).
          bit_and f 1 == f % 2 && (bit_and f 2 == f / 2 % 2 * 2 && bit_and f 8 == f / 8 % 2 * 8))
        256 f flag_bits_table h in
    ground arith

-- A header whose flags are a byte is accepted exactly when it follows every rule.
pub validate_header_iff :
    (h : Header) (max_payload : ℕ)
    → h.flags < 256
    → (validate_header h max_payload ≡ ok) ↔ IsWellFormed h max_payload
unfolding validate_header
validate_header_iff h max_payload b = (
  λ e. record {
    version_known = ground arith;
    mode_known = ground arith;
    type_known = ground arith;
    reserved_clear = ground (arith, flag_bits h.flags b);
    fits = ground arith;
    heartbeat = ground arith;
    ack_empty = ground arith;
    unacknowledged = ground arith;
    fragment_reliable = ground (arith, flag_bits h.flags b);
    last_is_fragment = ground (arith, flag_bits h.flags b);
  },
  λ w. ground (arith, flag_bits h.flags b),
)
