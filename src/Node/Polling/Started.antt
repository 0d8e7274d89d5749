-- ===== src/Node/Polling/Started.antt =====
-- What `relinow_init` leaves of a node whose channel is RELIABLE: the node the calls start from.
use relinow.Prelude.{
  ℕ, ◌≤◌, ◌<◌, ◌≡◌, ◌≢◌, refl, [], ◌∷◌, some, none, suc, true, false, ◌||◌, ◌==◌, arith, replicate,
  get_or, find_index, count, ltb,
}
use relinow.Packet.{mode_reliable, heartbeat_channel}
use relinow.Reliable
use relinow.State.Types
use relinow.State.Types.{
  ok, State, Channel, Peer, zero_peer, zero_channel, zero_slot, tx_queue_size, rx_queue_size,
}
use relinow.State.Lookup.{channel_at, put_channel, find_channel_mut, is_channel}
use relinow.State.Peers
use relinow.State.Peers.{new_peer, new_channel}
use relinow.State.Heartbeat.{configure_heartbeat}
use relinow.State.ReliableMode.{set_reliable_config}
use relinow.State.Scheduler.{is_polled}
use relinow.Reliable.Invariant.{init-IsValid}
use relinow.Node.Types.{esp_ok, NodeConfig, Node, zero_node, zero_cached, max_payload_size}
use relinow.Node.Setup
use relinow.Node.Setup.{configured}
use relinow.Node.Polling.Faithful.{IsFaithful}

-- Nothing but what it is filled with is read from a filled array.
get_or-replicate {ℓ} : {A : Type ℓ} (n j : ℕ) (d : A) → get_or (replicate n d) j d ≡ d
get_or-replicate ℕ.zero j d = refl
get_or-replicate (suc n) ℕ.zero d = refl
get_or-replicate (suc n) (suc j) d = get_or-replicate n j d

module _ (cfg : NodeConfig) where
  -- A table with the peer and one channel,
  abbrev table : Channel → Peer → State
  table channel peer = record {
    peers = record peer { channels = channel ∷ replicate 15 zero_channel } ∷ replicate 19 zero_peer;
  }

  abbrev opened_channel : Channel
  opened_channel = record zero_channel {
    in_use = true;
    channel_id = cfg.channel_id;
    mode = mode_reliable;
    reliable = Reliable.init none;
  }

  -- the channel with its reliable configuration,
  abbrev ready_channel : Channel
  ready_channel = record opened_channel {
    reliable = Reliable.init (some cfg.reliable_cfg);
    has_inflight = false;
    tx_queue = replicate tx_queue_size zero_slot;
    rx_queue = replicate rx_queue_size zero_slot;
  }

  -- and the node with the heartbeat set.
  abbrev ready_peer : Peer
  ready_peer = record (new_peer cfg.peer_mac) {
    heartbeat_interval_ms = cfg.heartbeat_interval_ms;
    heartbeat_miss_count_max = cfg.heartbeat_miss_count_max;
    missed_pongs = 0;
    last_ping_sent_ms = 0;
  }

  abbrev pub ready_node : Node
  ready_node =
      configured (record zero_node { state = table ready_channel ready_peer; peer_index = 0 }) cfg

  module _ (in_mode : cfg.mode ≡ mode_reliable) (small_id : cfg.channel_id < 255)
      (some_bytes : 0 < cfg.max_payload) (fits : cfg.max_payload ≤ max_payload_size) where
    opened :
        Peers.open_channel
          (record { peers = new_peer cfg.peer_mac ∷ replicate 19 zero_peer })
          0
          cfg.channel_id
          mode_reliable
          0
        ≡ (ok, table opened_channel (new_peer cfg.peer_mac))
    unfolding Peers.open_channel Peers.mode_supported Peers.open_new_channel Peers.new_channel
        find_index put_channel
    opened =
        let other : (cfg.channel_id == heartbeat_channel) ≡ false = ground (arith, small_id) in
        rw other refl

    channel_found :
        (channel : Channel) (peer : Peer)
        → peer.in_use ≡ true
        → is_channel cfg.channel_id channel ≡ true
        → find_channel_mut (table channel peer) 0 cfg.channel_id ≡ some 0
    unfolding find_channel_mut find_index
    channel_found channel peer used self = rw (used, find_channel_mut, self) refl

    self : is_channel cfg.channel_id opened_channel ≡ true
    self = ground arith

    configured_channel :
        set_reliable_config
          (table opened_channel (new_peer cfg.peer_mac))
          0
          cfg.channel_id
          cfg.reliable_cfg
        ≡ (ok, table ready_channel (new_peer cfg.peer_mac))
    unfolding set_reliable_config put_channel
    configured_channel =
        rw (channel_found opened_channel (new_peer cfg.peer_mac) refl self, set_reliable_config)
          refl

    init_ready : (node : Node) → Setup.init node cfg ≡ (esp_ok, ready_node)
    unfolding Setup.init Peers.add_peer Types.init find_index Setup.init_channel Setup.init_reliable
        Setup.init_heartbeat configure_heartbeat
    init_ready node =
        let payload_fine : (cfg.max_payload == 0 || ltb max_payload_size cfg.max_payload) ≡ false =
          ground (arith, some_bytes, fits) in
        rw (payload_fine, Setup.init, in_mode, opened, configured_channel) refl

    others_idle : (j : ℕ) → j ≢ 0 → is_polled (channel_at ready_node.state 0 j) ≡ false
    others_idle ℕ.zero apart = absurd (apart refl)
    others_idle (suc j) apart = rw (get_or-replicate 15 j zero_channel) refl

    pub ready-IsFaithful :
        cfg.reliable_cfg.max_retries < 256
        → cfg.reliable_cfg.initial_rtt_ms < 65536
        → cfg.reliable_cfg.rtt_alpha_q8 < 256
        → IsFaithful ready_node cfg.channel_id 0 []
    unfolding Reliable.init count
    ready-IsFaithful retries rtt alpha = record {
      bounded = fits;
      only = record {
        index = omega arith;
        held = record {
          found = channel_found ready_channel ready_peer refl self;
          mode = refl;
          mirror = record {
            valid = init-IsValid cfg.reliable_cfg retries rtt alpha;
            tx_room = refl;
            used = refl;
            same = λ r. refl;
          };
        };
        others = others_idle;
        last = omega arith;
      };
      agrees = record {
        size = refl;
        used = refl;
        same = λ q. refl;
        content = λ j used.
            let empty = rw (get_or-replicate 16 j zero_cached) at used in absurd (ground arith);
      };
    }

-- Where `relinow_init` is given a RELIABLE channel of a number below 255, a payload limit from 1 to
-- 241 and a reliable configuration of fields within their widths, it succeeds whatever the node's
-- memory holds. The node it leaves talks to the given peer with the given limit, its channel is the
-- only RELIABLE one and has no frame in flight, and its transmission cache is empty: every run of
-- sends, acknowledgments and polls can start from it.
pub init-IsFaithful :
    (node : Node) (cfg : NodeConfig)
    → cfg.mode ≡ mode_reliable
    → cfg.channel_id < 255
    → 0 < cfg.max_payload
    → cfg.max_payload ≤ max_payload_size
    → cfg.reliable_cfg.max_retries < 256
    → cfg.reliable_cfg.initial_rtt_ms < 65536
    → cfg.reliable_cfg.rtt_alpha_q8 < 256
    → let (rc, started) = Setup.init node cfg in
      (rc ≡ esp_ok)
      × (started.peer_mac ≡ cfg.peer_mac)
      × (started.max_payload ≡ cfg.max_payload)
      × IsFaithful started cfg.channel_id 0 []
init-IsFaithful node cfg in_mode small_id some_bytes fits retries rtt alpha =
    rw (init_ready cfg in_mode small_id some_bytes fits node)
      (refl, refl, refl, ready-IsFaithful cfg in_mode small_id some_bytes fits retries rtt alpha)
