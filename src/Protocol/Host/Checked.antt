-- ===== src/Protocol/Host/Checked.antt =====
-- src/internal/worker-protocol.ts: the frames of a Result, and what the host checks of them.
use pions.Prelude.{
  ℕ, ◌≤◌, refl, String, Bool, true, not, ◌||◌, Option, none, some, List, [], length, ltb, ◌==◌,
  str_eq, eq_iff, is_some, arith,
}
use pions.Platform.{Platform}
use pions.Text.{is_safe_integer}
use pions.Utf8.{is_utf8}
use pions.Types.Evidence.{AgentRunEvidence, PiUsage, PiToolUse}
use pions.Acceptance.{sha256_digest}
use pions.ResultAcceptance.{WorkerProducedResult, text_decode}
use pions.Protocol.{
  ProtocolAuthority, ProtocolLimits, invalid_transition, invalid_frame, result_too_large,
  digest_mismatch, Session, ◌>>◌, modify, require_not,
}
use pions.Protocol.Sessions.{>>-eq-ok, passed}
use pions.Protocol.Frames.{Wire}
use pions.Protocol.Host.{CurrentResult, HostProtocolPeer, is_receiving}
use pions.Protocol.Host.Reception.{
  concat, no_event, count_chunk, push_chunk, evidence_of, on_result_begin, add_chunk,
  on_result_chunk, commit_result, on_result_commit, finish_result, on_done,
}
use pions.Protocol.Host.Sound.{
  IsBounded, IsWhole, IsIntegral, Sound, Sound-then, Keeps-checked, sound_rules,
}

module _ (platform : Platform) (wire : Wire) (authority : ProtocolAuthority)
    (limits : ProtocolLimits) where
  pub on_result_begin-Sound :
      (request : String) (count : ℕ) (digest : String)
      → Sound platform limits (on_result_begin limits request count digest)
  unfolding on_result_begin
  on_result_begin-Sound request count digest = record {
    at = λ p h.
        let transition : Session HostProtocolPeer (Unit {0}) =
          require_not
            (not (is_receiving p.state) || is_some p.current_result || is_some p.received_result)
            invalid_transition in
        let safe : Session HostProtocolPeer (Unit {0}) =
          require_not (not (is_safe_integer count)) invalid_frame in
        let small : Session HostProtocolPeer (Unit {0}) =
          require_not (ltb limits.result_bytes count) result_too_large in
        let start : HostProtocolPeer → HostProtocolPeer = λ p. record p {
          current_result = some (record {
            acceptance_request_id = request;
            expected_byte_count = count;
            expected_digest = digest;
            chunks = [];
            received_byte_count = 0;
          });
        } in
        (Sound-then platform limits (transition >> safe >> small >> modify start) no_event
            (Keeps-checked platform limits (transition >> safe >> small) start (search sound_rules)
              (λ q q' e whole.
                let (_, q'', _, last) = >>-eq-ok (transition >> safe) small q e in
                let (fits, _) = passed (ltb limits.result_bytes count) result_too_large q'' last in
                let bound : count ≤ limits.result_bytes = ground arith in (bound, whole.1)))
            (search sound_rules)).at
          p h;
  }

  add_chunk-Sound :
      (payload : String) (o : Option CurrentResult)
      → IsBounded platform limits o
      → Sound platform limits (add_chunk wire payload o)
  add_chunk-Sound payload none bound = search sound_rules
  add_chunk-Sound payload (some r) bound =
      search (sound_rules, counted-IsIntegral, pushed-IsIntegral) depth 9
    where
      counted-IsIntegral :
          (bytes : List ℕ) (p : HostProtocolPeer)
          → IsIntegral platform limits p
          → IsIntegral platform limits (count_chunk r bytes p)
      counted-IsIntegral bytes p h = (bound, h.1)

      pushed-IsIntegral :
          (bytes : List ℕ) (p : HostProtocolPeer)
          → IsIntegral platform limits p
          → IsIntegral platform limits (push_chunk r bytes p)
      pushed-IsIntegral bytes p h = (bound, h.1)

  pub on_result_chunk-Sound :
      (payload : String) → Sound platform limits (on_result_chunk wire payload)
  unfolding on_result_chunk
  on_result_chunk-Sound payload = record {
    at = λ p h.
        (Sound-then platform limits (require_not (not (is_receiving p.state)) invalid_transition)
            (add_chunk wire payload p.current_result) (search sound_rules)
            (add_chunk-Sound payload p.current_result h.0)).at
          p h;
  }

  commit_result-Sound :
      (digest : String) (o : Option CurrentResult)
      → IsBounded platform limits o
      → Sound platform limits (commit_result platform digest o)
  commit_result-Sound digest none bound = search sound_rules
  commit_result-Sound digest (some r) bound =
      let bytes = concat r.chunks in
      let agrees : Session HostProtocolPeer (Unit {0}) =
        require_not (not (str_eq digest r.expected_digest)) invalid_transition in
      let damaged : Bool =
        not (length bytes == r.expected_byte_count)
        || not (str_eq (sha256_digest platform bytes) r.expected_digest) in
      let whole : Session HostProtocolPeer (Unit {0}) = require_not damaged digest_mismatch in
      let decodes : Session HostProtocolPeer (Unit {0}) =
        require_not (not (is_utf8 bytes)) invalid_frame in
      let finish : HostProtocolPeer → HostProtocolPeer = λ p. record p {
        received_result = some (record {
          acceptance_request_id = r.acceptance_request_id;
          body = text_decode bytes;
          expected_byte_count = r.expected_byte_count;
          expected_digest = r.expected_digest;
        });
        current_result = none;
        acknowledgement_pending = true;
      } in
      Sound-then platform limits (agrees >> whole >> decodes >> modify finish) no_event
        (Keeps-checked platform limits (agrees >> whole >> decodes) finish (search sound_rules)
          (λ q q' e kept.
            let (_, q2, checked, last) = >>-eq-ok (agrees >> whole) decodes q e in
            let (_, q1, _, middle) = >>-eq-ok agrees whole q checked in
            let (utf8, _) = passed (not (is_utf8 bytes)) invalid_frame q2 last in
            let (sound, _) = passed damaged digest_mismatch q1 middle in
            (
              tt,
              record {
                bytes = bytes;
                text = refl;
                utf8 = ground arith;
                digest = ground (arith, eq_iff (sha256_digest platform bytes) r.expected_digest);
                count = ground arith;
                bound = bound;
              },
            )))
        (search sound_rules)

  pub on_result_commit-Sound :
      (digest : String) → Sound platform limits (on_result_commit platform digest)
  unfolding on_result_commit
  on_result_commit-Sound digest = record {
    at = λ p h.
        (Sound-then platform limits (require_not (not (is_receiving p.state)) invalid_transition)
            (commit_result platform digest p.current_result) (search sound_rules)
            (commit_result-Sound digest p.current_result h.0)).at
          p h;
  }

  finish_result-Sound :
      (o : Option WorkerProducedResult) (evidence : AgentRunEvidence)
      → IsWhole platform limits o
      → Sound platform limits (finish_result o evidence)
  finish_result-Sound none evidence whole = search sound_rules
  finish_result-Sound (some result) evidence whole = search sound_rules

  pub on_done-Sound :
      (usage : PiUsage) (tool_uses : List PiToolUse)
      → Sound platform limits (on_done usage tool_uses)
  unfolding on_done
  on_done-Sound usage tool_uses = record {
    at = λ p h.
        (Sound-then platform limits
            (require_not (not (is_receiving p.state) || not p.acknowledgement_pending)
              invalid_transition)
            (finish_result p.received_result (evidence_of usage tool_uses)) (search sound_rules)
            (finish_result-Sound p.received_result (evidence_of usage tool_uses) h.1)).at
          p h;
  }
