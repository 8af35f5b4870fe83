-- ===== src/Examples/Wire.antt =====
-- The theorems on the stdio protocol, at pipes of a few bytes.
use Prim.Native.String.{String}
use text.Mathlib.Text.{◌==◌ as str_eq}
use symphony_akida.Wire.Batch.{Chip, BatchRequest, batch_request}
use symphony_akida.Wire.Batch.Inline.{Serves, request-Serves}
use symphony_akida.Prelude.{
  ℕ, zero, suc, ◌+◌, ◌≡◌, ◌≢◌, refl, Bool, true, false, [], ◌∷◌, ◌++◌, Option, none, some, arith,
  All, length, take, replicate, length-append, take-append, ap, ◌∙◌, ◌-◌, ◌==◌,
}
use symphony_akida.Prelude.Outcome.{Outcome, runtime_error, raise, return}
use symphony_akida.Wire.Stream.{Bytes, Pipe, got, newline, read_exact, read_exact_got}
use symphony_akida.Wire.Serve.{Request, Codec, waits, handle, serve_turn}
use symphony_akida.Wire.Container.{Channel, send_request}
use symphony_akida.Wire.Exchange.{exchange, unmapped_waits}

abbrev five_bytes : Pipe
five_bytes = record { bytes = 1 ∷ 2 ∷ 3 ∷ 4 ∷ 5 ∷ []; closed = true }

read_exact_got_example : read_exact (λ i. 0) five_bytes 3 ≡ got (1 ∷ 2 ∷ 3 ∷ []) (4 ∷ 5 ∷ [])
read_exact_got_example = read_exact_got (λ i. 0) five_bytes 3 (omega arith)

-- A codec of requests with a flag for a body: one byte for each flag, and a size in unary.
abbrev flag : Bool → ℕ
flag true = 21
flag false = 20

abbrev unflag : ℕ → Bool
unflag b = b == 21

abbrev size_bytes : Option ℕ → Bytes
size_bytes none = []
size_bytes (some n) = 22 ∷ replicate n 23

abbrev size_of : Bytes → Option ℕ
size_of [] = none
size_of (b ∷ bs) = some (length bs)

abbrev encode : Request Bool → Bytes
encode r = flag r.body ∷ flag r.inline ∷ flag r.shutdown ∷ size_bytes r.n

abbrev decode : Bytes → Option (Request Bool)
decode (a ∷ b ∷ c ∷ size) =
    some (record { body = unflag a; n = size_of size; inline = unflag b; shutdown = unflag c })
decode _ = none

abbrev strip : Bytes → Bytes
strip bytes = take (length bytes - 1) bytes

unflag-flag : (b : Bool) → unflag (flag b) ≡ b
unflag-flag true = refl
unflag-flag false = refl

length-replicate : (n b : ℕ) → length (replicate n b) ≡ n
length-replicate zero b = omega arith
length-replicate (suc n) b = omega (arith, length-replicate n b)

size_of-size_bytes : (n : Option ℕ) → size_of (size_bytes n) ≡ n
size_of-size_bytes none = refl
size_of-size_bytes (some n) = ap some (length-replicate n 23)

decode-encode : (r : Request Bool) → decode (encode r) ≡ some r
decode-encode r =
    rw (unflag-flag r.body, unflag-flag r.inline, unflag-flag r.shutdown, size_of-size_bytes r.n)
      refl

flag_lem : (b : Bool) → flag b ≢ newline
flag_lem true e = omega (arith, e)
flag_lem false e = omega (arith, e)

replicate-All : (n : ℕ) → All (λ b. b ≢ newline) (replicate n 23)
replicate-All zero = tt
replicate-All (suc n) = ((λ e. omega (arith, e)), replicate-All n)

size_bytes_lem : (n : Option ℕ) → All (λ b. b ≢ newline) (size_bytes n)
size_bytes_lem none = tt
size_bytes_lem (some n) = ((λ e. omega (arith, e)), replicate-All n)

strip-append : (bytes : Bytes) → strip (bytes ++ newline ∷ []) ≡ bytes
strip-append bytes =
    ap (λ n. take n (bytes ++ newline ∷ [])) (omega (arith, length-append bytes (newline ∷ [])))
    ∙ take-append bytes (newline ∷ [])

encode-ne-nil : (r : Request Bool) → encode r ≢ []
encode-ne-nil r e = grind arith

abbrev flags : Codec Bool
flags = record {
  encode = encode;
  decode = decode;
  strip = strip;
  decode-encode = decode-encode;
  one_line = λ r. (flag_lem r.body, (flag_lem r.inline, (flag_lem r.shutdown, size_bytes_lem r.n)));
  strip-encode = λ r. strip-append (encode r);
  encode-ne-nil = encode-ne-nil;
}

-- A handler that counts its calls, and answers with the payload.
abbrev count_calls : ℕ → Bool → Option Bytes → ℕ × Outcome (Option Bytes)
count_calls h body payload = (h + 1, return payload)

abbrev six_bytes : Channel
six_bytes = record { shm = some (9 ∷ 9 ∷ 9 ∷ 9 ∷ 9 ∷ 9 ∷ []); shm_bytes = 6 }

-- Seven bytes do not fit the buffer of six and go down the pipe.
exchange_example :
    let sent = send_request flags true six_bytes (some (1 ∷ 2 ∷ 3 ∷ 4 ∷ 5 ∷ 6 ∷ 7 ∷ [])) in
    serve_turn flags count_calls
      (λ i. i)
      sent.channel.shm
      0
      (record { bytes = sent.wire ++ 8 ∷ []; closed = false })
    ≡ handle flags count_calls
        (λ i. i)
        sent.channel.shm
        0
        sent.header
        (some (1 ∷ 2 ∷ 3 ∷ 4 ∷ 5 ∷ 6 ∷ 7 ∷ []))
        (record { bytes = 8 ∷ []; closed = false })
exchange_example =
    exchange flags count_calls (λ i. i) 0 true (some (1 ∷ 2 ∷ 3 ∷ 4 ∷ 5 ∷ 6 ∷ 7 ∷ [])) six_bytes
      (8 ∷ []) false refl

unmapped_waits_example :
    serve_turn flags count_calls
      (λ i. i)
      none
      0
      (record {
        bytes = (send_request flags true six_bytes (some (1 ∷ 2 ∷ []))).wire;
        closed = false;
      })
    ≡ waits
unmapped_waits_example =
    unmapped_waits flags count_calls (λ i. i) 0 true (1 ∷ 2 ∷ []) (9 ∷ 9 ∷ 9 ∷ 9 ∷ 9 ∷ 9 ∷ [])
      six_bytes refl (omega arith) (omega arith)

-- A chip that has "kws" mapped and fails to load any other model.
abbrev one_model : Chip ℕ ℕ
one_model = record {
  is_mapped = λ calls name. str_eq name "kws";
  load = λ calls name. (calls + 1, raise runtime_error);
  infer = λ calls input. (calls + 1, return (length input));
}

abbrev batch_of : String → BatchRequest
batch_of name = record {
  shutdown = false;
  model = some name;
  n = some 2;
  inline = true;
  input = none;
  is_load = false;
  name = none;
}

-- The payload's first byte is a line of its own.
request-Serves_example :
    Serves one_model
      (λ i. i)
      none
      (10 ∷ 2 ∷ [])
      (3 ∷ [])
      false
      0
      false
      (1, raise runtime_error)
      (batch_request one_model
        (λ i. i)
        none
        0
        (some (batch_of "asl"))
        (record { bytes = 10 ∷ 2 ∷ 3 ∷ []; closed = false }))
request-Serves_example =
    request-Serves one_model (λ i. i) none (10 ∷ 2 ∷ []) (3 ∷ []) false (batch_of "asl") "asl" refl
      refl refl refl refl 0
