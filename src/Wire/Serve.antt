-- ===== src/Wire/Serve.antt =====
-- The worker's loop: worker_io.py, `serve`.
use symphony_akida.Prelude.{
  ℕ, ◌≡◌, ◌≢◌, Bool, [], ◌∷◌, ◌++◌, Option, none, some, All, take, if◌then◌else◌,
}
use symphony_akida.Prelude.Outcome.{Outcome, return, raise, Exception, eof_error, value_error}
use symphony_akida.Wire.Stream.{Bytes, Pipe, got, eof, blocked, newline, read_line, read_exact}

-- A request line: the keys that the protocol reads, and the rest for the handler.
pub record Request {ℓ} (B : Type ℓ) : Type ℓ where
  pub body : B
  pub n : Option ℕ
  pub inline : Bool
  pub shutdown : Bool

-- The `json` module on request lines, with `bytes.strip`. A printed object is one line, begins
-- and ends with a brace, and parses to what was printed.
pub record Codec (B : Type 0) : Type 0 where
  pub encode : Request B → Bytes
  pub decode : Bytes → Option (Request B)
  pub strip : Bytes → Bytes
  pub decode-encode : (r : Request B) → decode (encode r) ≡ some r
  pub one_line : (r : Request B) → All (λ b. b ≢ newline) (encode r)
  pub strip-encode : (r : Request B) → strip (encode r ++ newline ∷ []) ≡ encode r
  pub encode-ne-nil : (r : Request B) → encode r ≢ []

-- A reply line: what the handler returned, or `{"error": ...}`.
pub data Reply {ℓ} (R : Type ℓ) : Type ℓ where
  answer : R → Reply R
  error : Exception → Reply R

-- What one round of the loop comes to.
pub data Turn (H R : Type 0) : Type 0 where
  stops : Turn H R
  waits : Turn H R
  skips : Pipe → Turn H R
  replies : H → Reply R → Pipe → Turn H R

module _ {B H R : Type 0} (codec : Codec B) (handler : H → B → Option Bytes → H × Outcome R)
    (most : ℕ → ℕ) (shm : Option Bytes) where
  abbrev pub to_reply : Outcome R → Reply R
  to_reply (return r) = answer r
  to_reply (raise e) = error e

  unfoldable pub handle : H → Request B → Option Bytes → Pipe → Turn H R
  handle h request payload p =
      let (h', out) = handler h request.body payload in replies h' (to_reply out) p

  -- The payload of `n` bytes: inline, or at the head of the shared buffer.
  unfoldable pub take_payload : H → Request B → ℕ → Option Bytes → Pipe → Turn H R
  unfolding handle
  take_payload h request n none p = elim (read_exact most p n) [
    | got payload rest ↦ handle h request (some payload) (record p { bytes = rest })
    | eof ↦ replies h (error eof_error) (record p { bytes = [] })
    | blocked ↦ waits
  ]
  take_payload h request n (some buffer) p = handle h request (some (take n buffer)) p

  unfoldable pub serve_request : H → Request B → Option ℕ → Pipe → Turn H R
  unfolding take_payload
  serve_request h request none p = handle h request none p
  serve_request h request (some n) p =
      take_payload h request n (if request.inline then none else shm) p

  unfoldable pub serve_parsed : H → Option (Request B) → Pipe → Turn H R
  unfolding serve_request
  serve_parsed h none p = replies h (error value_error) p
  serve_parsed h (some request) p =
      if request.shutdown then stops else serve_request h request request.n p

  unfoldable pub serve_line : H → Bytes → Pipe → Turn H R
  unfolding serve_parsed
  serve_line h [] p = skips p
  serve_line h (b ∷ bs) p = serve_parsed h (codec.decode (b ∷ bs)) p

  -- An empty line is the end of the pipe; a blank one is skipped.
  unfoldable pub serve_read : H → Bytes → Pipe → Turn H R
  unfolding serve_line
  serve_read h [] p = stops
  serve_read h (b ∷ bs) p = serve_line h (codec.strip (b ∷ bs)) p

  -- One round of the `while True` of `serve`.
  unfoldable pub serve_turn : H → Pipe → Turn H R
  unfolding serve_read
  serve_turn h p = elim (read_line p) [
    | got line rest ↦ serve_read h line (record p { bytes = rest })
    | eof ↦ stops
    | blocked ↦ waits
  ]
