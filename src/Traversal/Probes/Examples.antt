-- ===== src/Traversal/Probes/Examples.antt =====
-- Probes of concrete payloads, and the theorems on them.
use ssh_mobile.Base.{◌≡◌, refl, List, [], ◌∷◌, err}
use ssh_mobile.Base.Sets.{contains, Distinct}
use ssh_mobile.Traversal.Candidate.{v4, lan, relay}
use ssh_mobile.Traversal.Exchange.{all_graphic}
use ssh_mobile.Traversal.Payload.{
  CandidatePayload, quic, tcp, relayed, is_bad_name, has_transport, repeats_transport,
  any_other_than_udp, any_direct, mismatches_relay, validate_payload, insert_transport,
  sort_transports, normalized, without_relay, direct_transports, attempt_key, attempt_key_eq,
  relay_mismatch,
}
use ssh_mobile.Traversal.Probes.{
  qualify_direct_probe, new_probe_queue, retain_keys, queue_candidate, queue_candidates, reconcile,
  pop_pending, pop_next_probe,
}
use ssh_mobile.Traversal.Probes.Once.{
  ProbeCall, reconciles, pops, call_queue, started_by, started_by_once,
}
use ssh_mobile.Traversal.Probes.Exact.{queue_after, Holds, reconcile_exact}

abbrev home : CandidatePayload
home = record {
  version = 2;
  candidate_id = 104 ∷ [];
  endpoint = v4 3232235777 4433;
  kind = lan;
  transport_capabilities = tcp ∷ quic ∷ [];
  priority = 100;
  interface_name = 119 ∷ [];
  generation = 2;
}

abbrev detour : CandidatePayload
detour = record home {
  candidate_id = 114 ∷ [];
  kind = relay;
  transport_capabilities = relayed ∷ [];
}

abbrev moved : CandidatePayload
moved = record home { generation = 3 }

abbrev probe_calls : List ProbeCall
probe_calls =
    reconciles (home ∷ detour ∷ [])
    ∷ pops
    ∷ reconciles (home ∷ detour ∷ moved ∷ [])
    ∷ pops
    ∷ pops
    ∷ []

direct_relay_refused :
    validate_payload (record home { transport_capabilities = relayed ∷ [] }) ≡ err relay_mismatch
unfolding validate_payload is_bad_name all_graphic repeats_transport has_transport
    any_other_than_udp any_direct mismatches_relay
direct_relay_refused = refl

moved_probed : started_by new_probe_queue probe_calls ≡ attempt_key home ∷ attempt_key moved ∷ []
unfolding started_by call_queue reconcile qualify_direct_probe normalized validate_payload
    is_bad_name all_graphic repeats_transport has_transport any_other_than_udp any_direct
    mismatches_relay sort_transports insert_transport direct_transports without_relay retain_keys
    queue_candidates queue_candidate contains pop_next_probe pop_pending attempt_key
moved_probed = refl

started_by_once_example : Distinct (started_by new_probe_queue probe_calls)
started_by_once_example = started_by_once probe_calls

reconcile_exact_example :
    Holds
      (queue_after new_probe_queue probe_calls)
      (qualify_direct_probe (home ∷ detour ∷ []))
      (reconcile (queue_after new_probe_queue probe_calls) (home ∷ detour ∷ []))
reconcile_exact_example = reconcile_exact probe_calls (home ∷ detour ∷ [])
