-- ===== src/Wire/Exchange.antt =====
-- One request and its reply: what the container writes is what the worker's handler gets, and the
-- pipe is left at the next request.
use mathlib.Core.List.{append_assoc}
use symphony_akida.Prelude.{
  zero, suc, ◌≤◌, ℕ, ◌≡◌, ◌≢◌, refl, ap, ap₂, ◌∙◌, inl, inr, Bool, true, false, [], ◌∷◌, ◌++◌,
  Option, none, some, arith, ltb, length, length-append, drop, take, ◌<◌, take-append, drop-append,
  All, Bool-cases,
}
use symphony_akida.Prelude.Outcome.{Outcome}
use symphony_akida.Wire.Stream.{
  Bytes, Pipe, got, newline, split_line, read_line, read_exact_got, read_exact_short,
}
use symphony_akida.Wire.Serve.{
  Request, Codec, waits, handle, take_payload, serve_request, serve_parsed, serve_line, serve_read,
  serve_turn,
}
use symphony_akida.Wire.Container.{
  IsSized, Channel, write_shm, send_inline, send_shared, send_payload, send_request,
}

shared_lem :
    {B : Type 0} (codec : Codec B) (body : B) (c : Channel) (payload buffer : Bytes)
    → length payload ≤ c.shm_bytes
    → send_payload codec body c payload (some buffer) ≡ send_shared codec body c payload
unfolding send_payload
shared_lem codec body c payload buffer fits = ground (arith, fits)

-- A line without a line feed of its own ends at the one that follows it.
pub split_line-append :
    (line rest : Bytes)
    → All (λ b. b ≢ newline) line
    → split_line (line ++ newline ∷ rest) ≡ some (line ++ newline ∷ [], rest)
unfolding split_line
split_line-append [] rest h = refl
split_line-append (b ∷ bs) rest h = ground (arith, split_line-append bs rest h.1, h.0)

take-take-append :
    (payload rest : Bytes) (n : ℕ)
    → length payload ≤ n
    → take (length payload) (take n (payload ++ rest)) ≡ payload
take-take-append [] rest n h = refl
take-take-append (b ∷ bs) rest zero h = absurd (omega arith)
take-take-append (b ∷ bs) rest (suc n) h = ap (◌∷◌ b) (take-take-append bs rest n (omega arith))

module _ {B H R : Type 0} (codec : Codec B) (handler : H → B → Option Bytes → H × Outcome R)
    (most : ℕ → ℕ) where
  module _ (shm : Option Bytes) (h : H) where
    parsed_lem :
        (r : Request B) (p : Pipe)
        → r.shutdown ≡ false
        → serve_parsed codec handler most shm h (some r) p
          ≡ serve_request codec handler most shm h r r.n p
    unfolding serve_parsed
    parsed_lem r p going = rw going

    serve_line-decode :
        (line : Bytes) (p : Pipe)
        → line ≢ []
        → serve_line codec handler most shm h line p
          ≡ serve_parsed codec handler most shm h (codec.decode line) p
    unfolding serve_line
    serve_line-decode [] p some_bytes = absurd (some_bytes refl)
    serve_line-decode (b ∷ bs) p some_bytes = refl

    serve_read-strip :
        (line : Bytes) (p : Pipe)
        → serve_read codec handler most shm h (line ++ newline ∷ []) p
          ≡ serve_line codec handler most shm h (codec.strip (line ++ newline ∷ [])) p
    unfolding serve_read
    serve_read-strip [] p = refl
    serve_read-strip (b ∷ bs) p = refl

    -- A printed request line brings the loop to its payload.
    pub serve_turn-encode :
        (r : Request B) (rest : Bytes) (closed : Bool)
        → r.shutdown ≡ false
        → serve_turn codec handler most shm h
            (record { bytes = codec.encode r ++ newline ∷ rest; closed = closed })
          ≡ serve_request codec handler most shm h r r.n (record { bytes = rest; closed = closed })
    unfolding serve_turn read_line
    serve_turn-encode r rest closed going =
        let p : Pipe = record { bytes = rest; closed = closed } in
        rw (split_line-append (codec.encode r) rest (codec.one_line r), serve_turn, read_line)
          (serve_read-strip (codec.encode r) p
            ∙ ap (λ line. serve_line codec handler most shm h line p) (codec.strip-encode r)
            ∙ serve_line-decode (codec.encode r) p (codec.encode-ne-nil r)
            ∙ ap (λ parsed. serve_parsed codec handler most shm h parsed p) (codec.decode-encode r)
            ∙ parsed_lem r p going)

  -- A payload behind its line is read whole, and the pipe is left at what follows it.
  serve_inline :
      (shm : Option Bytes) (h : H) (body : B) (payload rest : Bytes) (closed : Bool) (c : Channel)
      → let sent = send_inline codec body c payload in
        serve_turn codec handler most shm h (record { bytes = sent.wire ++ rest; closed = closed })
        ≡ handle codec handler most shm h sent.header
            (some payload)
            (record { bytes = rest; closed = closed })
  unfolding send_inline serve_request
  serve_inline shm h body payload rest closed c =
      let r : Request B = record {
        body = body;
        n = some (length payload);
        inline = true;
        shutdown = false;
      } in
      let p : Pipe = record { bytes = payload ++ rest; closed = closed } in
      let read =
        read_exact_got most p (length payload) (omega (arith, length-append payload rest))
        ∙ ap₂ got (take-append payload rest) (drop-append payload rest) in
      rw append_assoc
        (serve_turn-encode shm h r (payload ++ rest) closed refl ∙ rw (read, take_payload))

  serve_shared :
      (h : H) (body : B) (payload buffer rest : Bytes) (closed : Bool) (c : Channel)
      → c.shm ≡ some buffer
      → length payload ≤ length buffer
      → let sent = send_shared codec body c payload in
        serve_turn codec handler most sent.channel.shm h
          (record { bytes = sent.wire ++ rest; closed = closed })
        ≡ handle codec handler most sent.channel.shm h sent.header
            (some payload)
            (record { bytes = rest; closed = closed })
  unfolding send_shared serve_request
  serve_shared h body payload buffer rest closed c e fits =
      let r : Request B = record {
        body = body;
        n = some (length payload);
        inline = false;
        shutdown = false;
      } in
      rw (append_assoc, e)
        (serve_turn-encode (write_shm payload (some buffer)) h r rest closed refl
          ∙ rw (
            take-take-append payload (drop (length payload) buffer) (length buffer) fits,
            take_payload,
          ))

  serve_plain :
      (shm : Option Bytes) (h : H) (body : B) (rest : Bytes) (closed : Bool) (c : Channel)
      → let sent = send_request codec body c none in
        serve_turn codec handler most shm h (record { bytes = sent.wire ++ rest; closed = closed })
        ≡ handle codec handler most shm h sent.header none
            (record { bytes = rest; closed = closed })
  unfolding send_request serve_request
  serve_plain shm h body rest closed c =
      let r : Request B = record { body = body; n = none; inline = false; shutdown = false } in
      rw append_assoc (serve_turn-encode shm h r rest closed refl)

  serve_payload :
      (h : H) (body : B) (payload rest : Bytes) (closed : Bool) (c : Channel) (shm : Option Bytes)
      → c.shm ≡ shm
      → IsSized shm c.shm_bytes
      → let sent = send_payload codec body c payload shm in
        serve_turn codec handler most sent.channel.shm h
          (record { bytes = sent.wire ++ rest; closed = closed })
        ≡ handle codec handler most sent.channel.shm h sent.header
            (some payload)
            (record { bytes = rest; closed = closed })
  unfolding send_payload
  serve_payload h body payload rest closed c none e sized =
      serve_inline c.shm h body payload rest closed c
  serve_payload h body payload rest closed c (some buffer) e sized =
      elim (Bool-cases (ltb c.shm_bytes (length payload))) [
        | inl large ↦ rw large (serve_inline c.shm h body payload rest closed c)
        | inr fits ↦
            rw fits
              (serve_shared h body payload buffer rest closed c e (ground (arith, fits, sized)))
      ]

-- What one call of `request` writes makes the worker call its handler with exactly the body and
-- the payload of that call, and leaves the pipe at whatever comes after it. It holds for a payload
-- of any size and for any sizes of the single reads, with the buffer and without it, where the
-- worker has mapped the container's buffer, and the buffer has the size that was allocated.
pub exchange :
    {B H R : Type 0} (codec : Codec B) (handler : H → B → Option Bytes → H × Outcome R)
    (most : ℕ → ℕ) (h : H) (body : B) (payload : Option Bytes) (c : Channel) (rest : Bytes)
    (closed : Bool)
    → IsSized c.shm c.shm_bytes
    → let sent = send_request codec body c payload in
      serve_turn codec handler most sent.channel.shm h
        (record { bytes = sent.wire ++ rest; closed = closed })
      ≡ handle codec handler most sent.channel.shm h sent.header payload
          (record { bytes = rest; closed = closed })
unfolding send_request
exchange codec handler most h body none c rest closed sized =
    serve_plain codec handler most c.shm h body rest closed c
exchange codec handler most h body (some payload) c rest closed sized =
    serve_payload codec handler most h body payload rest closed c c.shm refl sized

-- A worker that could not map the buffer waits for ever on a request whose payload the container
-- puts there, if the payload is not empty and nothing else comes on the open pipe.
pub unmapped_waits :
    {B H R : Type 0} (codec : Codec B) (handler : H → B → Option Bytes → H × Outcome R)
    (most : ℕ → ℕ) (h : H) (body : B) (payload buffer : Bytes) (c : Channel)
    → c.shm ≡ some buffer
    → length payload ≤ c.shm_bytes
    → 0 < length payload
    → serve_turn codec handler most none h
        (record { bytes = (send_request codec body c (some payload)).wire; closed = false })
      ≡ waits
unfolding send_request send_shared serve_request
unmapped_waits codec handler most h body payload buffer c e fits some_bytes =
    let r : Request _ = record {
      body = body;
      n = some (length payload);
      inline = false;
      shutdown = false;
    } in
    let p : Pipe = record { bytes = []; closed = false } in
    let shares : send_payload codec body c payload c.shm ≡ send_shared codec body c payload =
      ap (send_payload codec body c payload) e ∙ shared_lem codec body c payload buffer fits in
    rw shares (
      serve_turn-encode codec handler most none h r [] false refl
      ∙ rw (read_exact_short most p (length payload) some_bytes, take_payload) refl)
