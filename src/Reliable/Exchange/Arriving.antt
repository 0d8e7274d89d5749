-- ===== src/Reliable/Exchange/Arriving.antt =====
-- A frame that arrives keeps the invariant of the exchange.
use relinow.Prelude.{
  ℕ, ◌+◌, ◌-◌, ◌≤◌, ◌<◌, ◌≡◌, refl, ap, ◌∙◌, inl, inr, List, ◌∷◌, ◌++◌, count, count-append, ◌==◌,
  ==_iff, arith, length, length-append, Bool-cases, subst, sym,
}
use relinow.Reliable.Types.{Ctx, RxResult}
use relinow.Reliable.Receiving.{on_data}
use relinow.Reliable.Receiver.{
  IsReceived, next_due, next_due_fresh, next_due_opened, on_data_fresh, consecutive, advance,
}
use relinow.Reliable.Delivery.{on_data_lem, chained}
use relinow.Reliable.Exchange.{Exchange, times, arriving}
use relinow.Reliable.Exchange.Numbers.{consecutive-le, consecutive-last}
use relinow.Reliable.Exchange.Invariant.{IsSound, Keeps}

module _ (e : Exchange) (h : IsSound e) (q : ℕ) (known : q < e.sent) (small : e.sent < 65536) where
  module _ (ctx : Ctx) (result : RxResult) (first : ℕ)
      (before : e.delivered ≡ consecutive first (length e.delivered))
      (due : first + length e.delivered ≤ e.sent)
      (step : IsReceived e.receiver q (first + length e.delivered) ctx result)
      (some_there : 0 < length e.delivered + length result.delivered) where
    abbrev all : List ℕ
    all = e.delivered ++ result.delivered

    -- Every number that is delivered now came in a frame, so the last one is below the count.
    arrived_within : first + length all ≤ e.sent
    arrived_within =
        let below =
          λ (s : ℕ)
              (k : 0
                < times s (consecutive (first + length e.delivered) (length result.delivered))).
            let k' : 0 < times s result.delivered =
              subst (λ l. 0 < times s l) (sym step.in_order) k in
            let origin : s < e.sent = elim (Bool-cases (q == s)) [
              | inl same ↦ ground (arith, known)
              | inr other ↦ h.held s (ground (arith, step.sound s, k'))
            ] in
            origin in
        omega (
          arith,
          length-append e.delivered result.delivered,
          consecutive-le (first + length e.delivered) (length result.delivered) e.sent due small
              below,
        )

    arrived_in_order : all ≡ consecutive first (length all)
    arrived_in_order =
        let next : first + length e.delivered ≡ advance first (length e.delivered) =
          omega (arith, due, small) in
        chained first e.delivered result.delivered (omega (arith, due, small)) before (
          subst (λ s. result.delivered ≡ consecutive s (length result.delivered)) next
            step.in_order)

    arrived_expected : ctx.expected_rx_seq ≡ first + length all
    arrived_expected =
        omega (arith, step.next, length-append e.delivered result.delivered, arrived_within, small)

    arrived_acked : 0 < times result.ack_id all
    arrived_acked =
        let last : result.ack_id ≡ first + length all - 1 = omega (
          arith,
          step.ack,
          arrived_expected,
          arrived_within,
          small,
          some_there,
          length-append e.delivered result.delivered,
        ) in
        rw last (
          subst (λ l. 0 < times (first + length all - 1) l) (sym arrived_in_order)
            (consecutive-last first (length all) (omega (arith, arrived_within, small))
              (omega (arith, some_there, length-append e.delivered result.delivered))))

    arrived-IsSound :
        IsSound (record e { receiver = ctx; acks = result.ack_id ∷ e.acks; delivered = all })
    unfolding count
    arrived-IsSound =
        let grown = λ (s : ℕ). count-append (λ (d : ℕ). d == s) e.delivered result.delivered in
        record {
          next = h.next;
          flying = h.flying;
          framed = h.framed;
          held = λ s k. elim (Bool-cases (q == s)) [
            | inl same ↦ ground (arith, known)
            | inr other ↦ h.held s (ground (arith, step.sound s))
          ];
          receiver = step.receiver;
          first = first;
          in_order = arrived_in_order;
          within = arrived_within;
          fresh = λ unopened. absurd (ground (arith, step.started));
          opened = λ _. (
            omega (arith, some_there, length-append e.delivered result.delivered),
            arrived_expected,
          );
          acked = λ s k. elim (Bool-cases (result.ack_id == s)) [
            | inl same ↦
                subst (λ a. 0 < times a all) ((==_iff result.ack_id s).0 same) arrived_acked
            | inr other ↦ omega (arith, grown s, h.acked s (ground arith))
          ];
          accounted = λ s k. elim (h.accounted s k) [
            | inl there ↦ inl there
            | inr (inl gone) ↦ inr (inl gone)
            | inr (inr arrived) ↦ inr (inr (omega (arith, grown s)))
          ];
        }

  arriving-IsSound : IsSound (arriving e q)
  arriving-IsSound =
      let (rc, ctx, result) = on_data e.receiver q in
      let step = (on_data_lem e.receiver q h.receiver (omega (arith, known, small))).1 in
      elim (Bool-cases e.receiver.has_rx_window) [
        | inl has ↦
            let (some_there, place) = h.opened has in
            let due : next_due e.receiver q ≡ h.first + length e.delivered =
              next_due_opened e.receiver q has ∙ place in
            arrived-IsSound ctx result h.first h.in_order h.within
              (subst (λ s. IsReceived e.receiver q s ctx result) due step)
              (omega (arith, some_there))
        | inr unopened ↦
            let none_yet = ap (λ (l : List ℕ). length l) (h.fresh unopened) in
            let due : next_due e.receiver q ≡ q + length e.delivered =
              next_due_fresh e.receiver q unopened ∙ omega (arith, none_yet) in
            let one : length result.delivered ≡ 1 = rw (on_data_fresh e.receiver q unopened) refl in
            arrived-IsSound ctx result q (rw (h.fresh unopened) refl)
              (omega (arith, none_yet, known))
              (subst (λ s. IsReceived e.receiver q s ctx result) due step) (omega (arith, one))
      ]

pub arriving-Keeps : (e : Exchange) (q : ℕ) → 0 < times q e.frames → Keeps e (arriving e q)
arriving-Keeps e q there = (omega arith, λ h small. arriving-IsSound e h q (h.framed q there) small)
