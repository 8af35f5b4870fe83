-- ===== src/Wire/Container.antt =====
-- The container's side: shard_wire.py, `Py312Worker.request`, and the same choice between the
-- shared buffer and the pipe in `AkidaServiceContainer.on_invoke`.
use symphony_akida.Prelude.{
  ℕ, ◌≡◌, take, ◌∷◌, ◌++◌, [], true, false, Option, none, some, ltb, length, drop, if◌then◌else◌,
}
use symphony_akida.Wire.Stream.{Bytes, newline}
use symphony_akida.Wire.Serve.{Request, Codec}

-- The shared buffer, where one was allocated: `_shm` and `_shm_bytes`.
pub record Channel : Type 0 where
  pub shm : Option Bytes
  pub shm_bytes : ℕ

-- `self._shm[0:len(payload)] = payload`. The buffer keeps its size: no byte is written past its end.
abbrev pub write_shm : Bytes → Option Bytes → Option Bytes
write_shm payload none = none
write_shm payload (some buffer) =
    some (take (length buffer) (payload ++ drop (length payload) buffer))

-- The buffer has the size that was allocated.
abbrev pub IsSized : Option Bytes → ℕ → Type 0
IsSized none n = Unit {0}
IsSized (some buffer) n = length buffer ≡ n

-- What a call of `request` leaves behind: the header, the bytes on the pipe, and the buffer.
pub record Sent (B : Type 0) : Type 0 where
  pub header : Request B
  pub wire : Bytes
  pub channel : Channel

module _ {B : Type 0} (codec : Codec B) (body : B) (c : Channel) where
  unfoldable pub send_inline : Bytes → Sent B
  send_inline payload =
      let header : Request B = record {
        body = body;
        n = some (length payload);
        inline = true;
        shutdown = false;
      } in
      record { header = header; wire = codec.encode header ++ newline ∷ payload; channel = c }

  unfoldable pub send_shared : Bytes → Sent B
  send_shared payload =
      let header : Request B = record {
        body = body;
        n = some (length payload);
        inline = false;
        shutdown = false;
      } in
      record {
        header = header;
        wire = codec.encode header ++ newline ∷ [];
        channel = record c { shm = write_shm payload c.shm };
      }

  -- A payload that the buffer cannot hold goes down the pipe.
  unfoldable pub send_payload : Bytes → Option Bytes → Sent B
  unfolding send_inline send_shared
  send_payload payload none = send_inline payload
  send_payload payload (some buffer) =
      if ltb c.shm_bytes (length payload) then send_inline payload else send_shared payload

  -- The part of `request` before it waits for the reply.
  unfoldable pub send_request : Option Bytes → Sent B
  unfolding send_payload
  send_request none =
      let header : Request B = record { body = body; n = none; inline = false; shutdown = false } in
      record { header = header; wire = codec.encode header ++ newline ∷ []; channel = c }
  send_request (some payload) = send_payload payload c.shm
