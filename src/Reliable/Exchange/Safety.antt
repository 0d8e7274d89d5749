-- ===== src/Reliable/Exchange/Safety.antt =====
-- What an exchange guarantees in every state it can reach.
use relinow.Prelude.{ℕ, ◌+◌, ◌≤◌, ◌<◌, ◌≡◌, refl, arith, length, count}
use relinow.Reliable.Types.{Config}
use relinow.Reliable.Setup.{init}
use relinow.Reliable.Receiver.{consecutive}
use relinow.Reliable.Exchange.{
  Exchange, connect, Step, sends, polls, arrives, answers, Reach, start, later,
}
use relinow.Reliable.Exchange.Invariant.{
  IsSound, Keeps, Accounted, sending-Keeps, polling-Keeps, answering-Keeps,
}
use relinow.Reliable.Exchange.Arriving.{arriving-Keeps}

connect-IsSound : (tx_config rx_config : Config) → IsSound (connect tx_config rx_config)
unfolding init count
connect-IsSound tx_config rx_config = record {
  next = refl;
  flying = λ q k. absurd (ground arith);
  framed = λ q k. absurd (ground arith);
  held = λ q k. absurd (ground arith);
  receiver = record { room = refl; opened = λ e. absurd (ground arith); fresh = λ e. refl };
  first = 0;
  in_order = refl;
  within = omega arith;
  fresh = λ e. refl;
  opened = λ e. absurd (ground arith);
  acked = λ q k. absurd (ground arith);
  accounted = λ q k. absurd (ground arith);
}

Step-Keeps : (e e' : Exchange) → Step e e' → Keeps e e'
Step-Keeps e _ (sends now_ms out) = sending-Keeps e now_ms out
Step-Keeps e _ (polls now_ms) = polling-Keeps e now_ms
Step-Keeps e _ (arrives q there) = arriving-Keeps e q there
Step-Keeps e _ (answers a now_ms there) = answering-Keeps e a now_ms there

Reach-IsSound :
    (tx_config rx_config : Config) (e : Exchange)
    → Reach tx_config rx_config e
    → e.sent < 65536
    → IsSound e
Reach-IsSound tx_config rx_config _ start small = connect-IsSound tx_config rx_config
Reach-IsSound tx_config rx_config e' (later {e} reach step) small =
    let (more, keeps) = Step-Keeps e e' step in
    keeps (Reach-IsSound tx_config rx_config e reach (omega (arith, more, small))) small

-- Two contexts, initialised with any configurations, exchange frames and acknowledgments over a
-- network that loses, repeats, delays and reorders both, with sends and polls at any times. As long
-- as fewer than 65536 sends were accepted, so that no number is used again: the numbers delivered
-- are consecutive without a wrap, so each at most once and in the order they were sent in, and each
-- was sent; and every number sent is still in flight at the sender, was reported as failed, or was
-- delivered, so no frame is lost without a report.
pub exchange_reliable :
    (tx_config rx_config : Config) (e : Exchange)
    → Reach tx_config rx_config e
    → e.sent < 65536
    → ((first : ℕ) × (e.delivered ≡ consecutive first (length e.delivered))
        × (first + length e.delivered ≤ e.sent))
      × ((q : ℕ) → q < e.sent → Accounted e q)
exchange_reliable tx_config rx_config e reach small =
    let h = Reach-IsSound tx_config rx_config e reach small in
    ((h.first, h.in_order, h.within), h.accounted)
