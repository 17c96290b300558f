-- ===== src/Protocol/Delivery/Sent.antt =====
-- src/internal/worker-protocol.ts: the bytes that `send` of the Worker makes of frames.
use mathlib.Core.Path.{subst}
use mathlib.Core.List.{append_assoc}
use pions.Prelude.{
  ℕ, zero, suc, ◌+◌, ◌≤◌, ◌≡◌, refl, sym, ap, ◌∙◌, Bool, true, false, List, [], ◌∷◌, ◌++◌, length,
  length-drop, take, drop, take-append-drop, ltb, ◌==◌, if◌then◌else◌, arith,
}
use pions.Except.{ok, err}
use pions.Platform.{Platform}
use pions.Protocol.{
  ProtocolAuthority, ProtocolLimits, Session, frame_too_large, violation, modify, return, ◌>>=◌,
  ◌>>◌,
}
use pions.Protocol.Sessions.{>>=-eq-ok}
use pions.Protocol.Frames.{Wire, WorkerBody}
use pions.Protocol.Framing.{encode_frame}
use pions.Protocol.Host.Reception.{concat}
use pions.Protocol.Worker.{WorkerProtocolPeer, cut, line_of, encode_worker_frame, encode_frames}
use pions.Protocol.Delivery.{stream, AreShort}

-- The chunks of a body, one after the other, are the body.
pub concat-cut :
    (n size : ℕ) (bytes : List ℕ) → 1 ≤ size → length bytes ≤ n → concat (cut n size bytes) ≡ bytes
concat-cut zero size [] one enough = refl
concat-cut zero size (c ∷ r) one enough = absurd (omega arith)
concat-cut (suc n) size [] one enough = refl
concat-cut (suc n) size (c ∷ r) one enough =
    let shorter : length (drop size (c ∷ r)) ≤ n = omega (arith, length-drop size (c ∷ r)) in
    ap (λ l. take size (c ∷ r) ++ l) (concat-cut n size (drop size (c ∷ r)) one shorter)
    ∙ take-append-drop size (c ∷ r)

module _ (wire : Wire) (authority : ProtocolAuthority) where
  pub stream-append :
      (n : ℕ) (xs ys : List WorkerBody)
      → stream wire authority n (xs ++ ys)
        ≡ stream wire authority n xs ++ stream wire authority (n + length xs) ys
  stream-append n [] ys = ap (λ k. stream wire authority k ys) (omega arith)
  stream-append n (body ∷ more) ys =
      let next : n + 1 + length more ≡ n + suc (length more) = omega arith in
      ap (λ l. line_of wire authority n body ++ b'\n' ∷ l)
        (stream-append (n + 1) more ys
          ∙ ap (λ k. stream wire authority (n + 1) more ++ stream wire authority k ys) next)
      ∙ sym (
          append_assoc (line_of wire authority n body) (b'\n' ∷ stream wire authority (n + 1) more)
            (stream wire authority (n + suc (length more)) ys))

  pub AreShort-append :
      (limits : ProtocolLimits) (n : ℕ) (xs ys : List WorkerBody)
      → AreShort wire authority limits n xs
      → AreShort wire authority limits (n + length xs) ys
      → AreShort wire authority limits n (xs ++ ys)
  AreShort-append limits n [] ys hx hy =
      subst (λ k. AreShort wire authority limits k ys) (omega arith) hy
  AreShort-append limits n (body ∷ more) ys hx hy = (
    hx.0,
    AreShort-append limits (n + 1) more ys hx.1
        (subst (λ k. AreShort wire authority limits k ys) (omega arith) hy),
  )

  module _ (platform : Platform) (limits : ProtocolLimits) {S : Type 0} where
    abbrev framed : List ℕ → Bool → Session (WorkerProtocolPeer S) (List ℕ)
    framed line long w =
        if long then (err (violation frame_too_large), w) else (ok (line ++ b'\n' ∷ []), w)

    encode_frame-eq-ok :
        (line : List ℕ) (w w' : WorkerProtocolPeer S) (sent : List ℕ) (first : Bool)
        → first ≡ false
        → encode_frame limits line first w ≡ (ok sent, w')
        → (length line ≤ limits.frame_bytes) × (sent ≡ line ++ b'\n' ∷ []) × (w' ≡ w)
    encode_frame-eq-ok line w w' sent true later h = absurd cc
    encode_frame-eq-ok line w w' sent false later h =
        go (ltb limits.frame_bytes (length line)) refl h
      where
        go :
            (long : Bool)
            → ltb limits.frame_bytes (length line) ≡ long
            → framed line long w ≡ (ok sent, w')
            → (length line ≤ limits.frame_bytes) × (sent ≡ line ++ b'\n' ∷ []) × (w' ≡ w)
        go true e k = absurd cc
        go false e k = (ground arith, cc, cc)

    -- A frame that is sent after the first one is short, and its line is what is sent.
    pub encode_worker_frame-eq-ok :
        (body : WorkerBody) (w w' : WorkerProtocolPeer S) (sent : List ℕ)
        → 2 ≤ w.sequence_number
        → encode_worker_frame platform wire authority limits body w ≡ (ok sent, w')
        → (length (line_of wire authority w.sequence_number body) ≤ limits.frame_bytes)
          × (sent ≡ line_of wire authority w.sequence_number body ++ b'\n' ∷ [])
          × (w' ≡ record w { sequence_number = w.sequence_number + 1 })
    unfolding encode_worker_frame
    encode_worker_frame-eq-ok body w w' sent later h =
        let line = line_of wire authority w.sequence_number body in
        let (bytes, w'', encoded, rest) =
          >>=-eq-ok (encode_frame limits line (w.sequence_number == 1))
            (λ bytes.
              modify (λ p. record p { sequence_number = p.sequence_number + 1 }) >> return bytes)
            w h in
        let (short, made, kept) =
          encode_frame-eq-ok line w w'' bytes (w.sequence_number == 1) (ground arith) encoded in
        let same : sent ≡ bytes = cc in
        let moved : w' ≡ record w'' { sequence_number = w''.sequence_number + 1 } = cc in
        (
          short,
          same ∙ made,
          moved
              ∙ ap
                  (λ (x : WorkerProtocolPeer S). record x {
                    sequence_number = x.sequence_number + 1;
                  })
                  kept,
        )

    pub encode_frames-eq-ok :
        (bodies : List WorkerBody) (w w' : WorkerProtocolPeer S) (sent : List ℕ)
        → 2 ≤ w.sequence_number
        → encode_frames platform wire authority limits bodies w ≡ (ok sent, w')
        → AreShort wire authority limits w.sequence_number bodies
          × (sent ≡ stream wire authority w.sequence_number bodies)
          × (w' ≡ record w { sequence_number = w.sequence_number + length bodies })
    unfolding encode_frames
    encode_frames-eq-ok [] w w' sent later h =
        let moved : w' ≡ w = cc in
        (tt, cc, moved ∙ ap (λ k. record w { sequence_number = k }) (omega arith))
    encode_frames-eq-ok (body ∷ more) w w' sent later h =
        let (line, w'', encoded, rest) =
          >>=-eq-ok (encode_worker_frame platform wire authority limits body)
            (λ bytes.
              encode_frames platform wire authority limits more >>= λ rest. return (bytes ++ rest))
            w h in
        let (lines, w3, all_encoded, returned) =
          >>=-eq-ok (encode_frames platform wire authority limits more)
            (λ rest. return (line ++ rest)) w'' rest in
        let (short, made, moved) = encode_worker_frame-eq-ok body w w'' line later encoded in
        let next : WorkerProtocolPeer S = record w { sequence_number = w.sequence_number + 1 } in
        let (shorts, streamed, counted) =
          encode_frames-eq-ok more next w3 lines (omega arith)
            (ap (encode_frames platform wire authority limits more) (sym moved) ∙ all_encoded) in
        let same : sent ≡ line ++ lines = cc in
        let ended : w' ≡ w3 = cc in
        (
          (short, shorts),
          same
              ∙ ap (λ l. l ++ lines) made
              ∙ append_assoc (line_of wire authority w.sequence_number body) (b'\n' ∷ []) lines
              ∙ ap (λ l. line_of wire authority w.sequence_number body ++ b'\n' ∷ l) streamed,
          ended ∙ counted ∙ ap (λ k. record w { sequence_number = k }) (omega arith),
        )
