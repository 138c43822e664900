-- ===== src/Node/Tests.antt =====
-- The whole node at concrete inputs.
use byt.Base.{ℕ, ◌/◌, ◌<◌, ◌≡◌, ◌≢◌, inl, refl, Bool, true, false, [], ◌∷◌, length, some, arith}
use byt.Ow.Bus.{
  schedule_timeout, bus_pull, bus_release, emit, read_bits_failure, write_bits_failure,
}
use byt.Ow.Safety.{boot-Inv, IsBusy}
use byt.Meas
use byt.Sht11.Cycle
use byt.Sht11.Wire
use byt.Ow.Ops.{read_bits, start_read_bit, arm_timer}
use byt.Io.Mobs.{transmit}
use byt.Svc.Dispatch.{serve, can_rx_svc, svc, can_tx_svc, execute}
use byt.Svc.Bus.{ow_read_bits}
use byt.Svc.State.{arg, reply_len}
use byt.Meas.{put_bytes}
use byt.Svc.Sample.{node, outside}
use byt.Node.Loop.{Node, Arrived, Sense, round, on_can, send_marked, is_svc_rx, receive_pv}
use byt.Node.Safety.{Reach, here, next, rounds, Reach-bus_safe}

abbrev whole : Node
whole = record {
  fw = record node { features = 0 };
  meas = record {
    state = Meas.idling;
    t0 = 0;
    cur_sensor_idx = 0;
    tmp_mob_marked_tx = 0;
    ow_t_count = 0;
    ow_t_obj = [];
    temp_sensors = [];
    ow = node.ow;
    pv = node.pv;
  };
  sht = record {
    state_l2 = Cycle.meas_rh_init;
    t0 = 0;
    temp = 0;
    rh = 0;
    wire = record {
      state = Wire.idle;
      byte = 0;
      bit_cnt = 0;
      with_ack = false;
      clk_dir = true;
      clk = false;
      pulled = false;
    };
    pv = node.pv;
    mob_idx = 0;
    iodata_idx = 0;
  };
  sent_pv = [];
}

-- The command that reads 8 bits from the bus.
abbrev read_8 : Arrived
read_8 = record { mob = 13; dlc = 2; bytes = 17 ∷ 8 ∷ [] }

abbrev inputs : Sense
inputs = record { now = 0; active = false; line = false }

abbrev none_busy : ℕ → Bool
none_busy i = false

abbrev after : Node
after = round outside (some read_8) none_busy false inputs whole

after-Reach : Reach whole after
unfolding is_svc_rx put_bytes
after-Reach =
    next here (rounds outside (some read_8) none_busy false inputs (omega arith, refl) refl)

after-IsBusy : IsBusy after.fw.ow
unfolding round on_can send_marked serve can_rx_svc svc can_tx_svc execute ow_read_bits read_bits
    start_read_bit arm_timer schedule_timeout bus_pull bus_release emit is_svc_rx receive_pv arg
    put_bytes reply_len transmit
after-IsBusy = inl refl

Reach-bus_safe_example :
    (after.fw.ow.bitidx / 8 < length after.fw.ow.ow_data)
    × ((0 < after.fw.ow.tccr0a) × (after.fw.ow.timsk0 ≡ 1))
    × ((after.fw.ow.response_code ≢ read_bits_failure)
        × (after.fw.ow.response_code ≢ write_bits_failure))
Reach-bus_safe_example = Reach-bus_safe boot-Inv after-Reach after-IsBusy
