-- ===== src/Tests/Wire/Packets.antt =====
-- Packets of the small wire format in the packet loop.
use proxifyre_rs.Prelude.{
  ℕ, ◌+◌, ◌%◌, ◌^◌, ◌<◌, ◌≤◌, ◌≡◌, refl, Bool, true, false, none, some, List, [], ◌∷◌, length,
  count, arith,
}
use proxifyre_rs.Router.Adapter.Batch.{delivered, on_side, forward_each, process_batch-forward_each}
use proxifyre_rs.Router.Adapter.Counters.{counter_of, total, process_batch-counters}
use proxifyre_rs.Router.Adapter.Events.{forget}
use proxifyre_rs.Router.Adapter.Loop.{
  Session, Opening, run_packet_loop, session_events, run_packet_loop-run,
}
use proxifyre_rs.Router.Adapter.Routed.{Fate, route_packet-Fate}
use proxifyre_rs.Router.Adapter.{
  IntermediateBuffer, process_payload, route_packet, process_batch, count_batch,
}
use proxifyre_rs.Router.Flow.{run}
use proxifyre_rs.Router.Packet.{parse_packet_info, parse_ipv4, parse_transport}
use proxifyre_rs.Router.PacketInfo.{PacketKind, ProxyDirection}
use proxifyre_rs.Tests.Fixture.{router, lookups, syn_packet}
use proxifyre_rs.Tests.Wire.{wire, syn_bytes, ethertype_of, protocol_of, tcp}

abbrev syn_buffer : IntermediateBuffer
syn_buffer = record { bytes = syn_bytes; on_send = true }

abbrev noise : IntermediateBuffer
noise = record { bytes = 1 ∷ 2 ∷ 3 ∷ []; on_send = false }

abbrev batch : List (IntermediateBuffer × ℕ)
batch = (syn_buffer, 5) ∷ (noise, 6) ∷ []

syn_is_read : parse_packet_info wire syn_bytes ≡ some syn_packet
unfolding wire parse_packet_info ethertype_of parse_ipv4 parse_transport protocol_of tcp
syn_is_read = refl

route_packet-Fate_example :
    let (r', q, to_adapter) = route_packet wire lookups router syn_buffer 5 in
    Fate wire
      (process_payload (lookups 5) router syn_packet 5 PacketKind.tcp_v4).1
      syn_buffer
      syn_packet
      q
      to_adapter
route_packet-Fate_example =
    route_packet-Fate wire lookups router syn_buffer 5 syn_packet (omega arith) (omega arith)
      syn_is_read refl

process_batch-forward_each_example :
    let (state, calls) = process_batch wire lookups router 19 batch 7 in
    let (r', ds) = forward_each wire lookups router batch in
    (state ≡ count_batch r' 19 7)
    × (delivered true calls ≡ on_side true ds)
    × (delivered false calls ≡ on_side false ds)
    × (length calls ≤ 2)
    × ((q : IntermediateBuffer → Bool)
        → count q (delivered true calls) + count q (delivered false calls) ≡ count (λ d. q d.0) ds)
process_batch-forward_each_example = process_batch-forward_each wire lookups router 19 batch 7

process_batch-counters_example :
    let ((r', counter'), calls) = process_batch wire lookups router 19 batch 7 in
    (counter_of ProxyDirection.to_proxy r'
      ≡ (counter_of ProxyDirection.to_proxy router
          + total wire lookups ProxyDirection.to_proxy router batch)
        % 2 ^ 64)
    × (counter_of ProxyDirection.to_proxy r' < 2 ^ 64)
    × (counter' < 20)
unfolding counter_of
process_batch-counters_example =
    process_batch-counters wire lookups ProxyDirection.to_proxy router 19 batch 7 (omega arith)

abbrev pub sessions : List Session
sessions =
    record { opening = Opening.not_found; rounds = []; shutdown = false }
    ∷ record {
      opening = Opening.found;
      rounds =
          record { shutdown = false; restart = false; packets = some batch; now = 7 }
          ∷ record { shutdown = false; restart = true; packets = none; now = 8 }
          ∷ [];
      shutdown = true;
    }
    ∷ []

run_packet_loop-run_example :
    forget (run_packet_loop wire lookups router sessions).0
    ≡ run lookups (forget router) (session_events wire sessions)
run_packet_loop-run_example = run_packet_loop-run wire lookups router sessions
