-- ===== src/Api/Writer/Laws.antt =====
-- What the wrapper records is what the client gets.
use go_http_mqtt_boilerplate.Prelude.{
  ℕ, ◌+◌, ◌≤◌, leb, ltb, nat_eq, ◌==◌, not, ◌&&◌, if◌then◌else◌, All, map, Bool, ◌≡◌, refl, sym, ap,
  ◌∙◌, Bool-cases, inl, inr, true, false, Option, none, some, List, [], ◌∷◌, ◌++◌, Text, arith,
}
use mathlib.Core.Path.{subst}
use go_http_mqtt_boilerplate.Api.Writer.{
  Call, header_sent, body_sent, Raw, Wrapped, wrap_response_writer, write_header, write,
}

-- net/http: an informational header (1xx but 101) is sent at once and does not decide the status.
-- The first other header decides it, and a body without one has status 200.
abbrev pub is_informational : ℕ → Bool
is_informational code = leb 100 code && ltb code 200 && not (code == 101)

unfoldable pub sent_status : List Call → Option ℕ
sent_status [] = none
sent_status (header_sent code ∷ calls) =
    let later = sent_status calls in if is_informational code then later else some code
sent_status (body_sent b n ∷ calls) = some 200

unfoldable pub sent_bytes : List Call → ℕ
sent_bytes [] = 0
sent_bytes (header_sent code ∷ calls) = sent_bytes calls
sent_bytes (body_sent b n ∷ calls) = n + sent_bytes calls

unfoldable pub headers_sent : List Call → ℕ
headers_sent [] = 0
headers_sent (header_sent code ∷ calls) = 1 + headers_sent calls
headers_sent (body_sent b n ∷ calls) = headers_sent calls

-- A call of the handler on its writer.
pub data Op : Type 0 where
  header : ℕ → Op
  body : Text → ℕ → Op

unfoldable pub apply : Op → Wrapped → Wrapped
unfolding write_header write
apply (header code) w = write_header code w
apply (body b n) w = write b n w

unfoldable pub apply_all : List Op → Wrapped → Wrapped
unfolding apply
apply_all [] w = w
apply_all (op ∷ ops) w = apply_all ops (apply op w)

-- A call that does not send an informational header.
abbrev pub IsFinal : Op → Type 0
IsFinal (header code) = is_informational code ≡ false
IsFinal (body b n) = Unit

-- The wrapper knows the status that the client sees, counts its bytes, and forwards one header.
pub record IsFaithful (w : Wrapped) : Type 0 where
  pub unwritten : w.written ≡ false → (w.inner.calls ≡ []) × (w.status_code ≡ 200)
  pub written : w.written ≡ true → sent_status w.inner.calls ≡ some w.status_code
  pub bytes : sent_bytes w.inner.calls ≡ w.bytes_written
  pub once : headers_sent w.inner.calls ≤ 1
  pub none_before : w.written ≡ false → headers_sent w.inner.calls ≡ 0

sent_status-append :
    (calls : List Call) (call : Call) (code : ℕ)
    → sent_status calls ≡ some code
    → sent_status (calls ++ call ∷ []) ≡ some code
unfolding sent_status
sent_status-append [] call code h = cc
sent_status-append (header_sent c ∷ calls) call code h =
    ground (arith, h, sent_status-append calls call code)
sent_status-append (body_sent b n ∷ calls) call code h = h

sent_bytes-append :
    (calls : List Call) (call : Call)
    → sent_bytes (calls ++ call ∷ []) ≡ sent_bytes calls + sent_bytes (call ∷ [])
unfolding sent_bytes
sent_bytes-append [] call = omega arith
sent_bytes-append (header_sent c ∷ calls) call = sent_bytes-append calls call
sent_bytes-append (body_sent b n ∷ calls) call = omega (arith, sent_bytes-append calls call)

headers_sent-append :
    (calls : List Call) (call : Call)
    → headers_sent (calls ++ call ∷ []) ≡ headers_sent calls + headers_sent (call ∷ [])
unfolding headers_sent
headers_sent-append [] call = omega arith
headers_sent-append (header_sent c ∷ calls) call = omega (arith, headers_sent-append calls call)
headers_sent-append (body_sent b n ∷ calls) call = headers_sent-append calls call

wrapped_fresh : (w : Raw) → w.calls ≡ [] → IsFaithful (wrap_response_writer w)
unfolding wrap_response_writer sent_bytes headers_sent
wrapped_fresh w h = record {
  unwritten = λ e. (h, refl);
  written = λ e. cc e;
  bytes = ground arith;
  once = ground arith;
  none_before = λ e. ground arith;
}

write_header_again : (code : ℕ) (w : Wrapped) → w.written ≡ true → write_header code w ≡ w
unfolding write_header
write_header_again code w h = ground arith

write_header_first :
    (code : ℕ) (w : Wrapped)
    → is_informational code ≡ false
    → w.written ≡ false
    → IsFaithful w
    → IsFaithful (write_header code w)
unfolding write_header sent_bytes headers_sent sent_status
write_header_first code w final h v =
    let fresh = v.unwritten h in
    record {
      unwritten = λ e. ground arith;
      written = λ e. ground (arith, fresh.0, final);
      bytes = ground (arith, sent_bytes-append w.inner.calls (header_sent code), v.bytes);
      once = ground (arith, headers_sent-append w.inner.calls (header_sent code), v.none_before h);
      none_before = λ e. ground arith;
    }

write-IsFaithful : (b : Text) (n : ℕ) (w : Wrapped) → IsFaithful w → IsFaithful (write b n w)
unfolding write sent_bytes headers_sent sent_status
write-IsFaithful b n w v =
    let call = body_sent b n in
    record {
      unwritten = λ e. ground arith;
      written = λ e. elim (Bool-cases w.written) [
        | inl old ↦
            ground (arith, sent_status-append w.inner.calls call w.status_code (v.written old))
        | inr new ↦ ground (arith, (v.unwritten new).0)
      ];
      bytes = ground (arith, sent_bytes-append w.inner.calls call, v.bytes);
      once = ground (arith, headers_sent-append w.inner.calls call, v.once);
      none_before = λ e. ground arith;
    }

apply-IsFaithful : (op : Op) (w : Wrapped) → IsFinal op → IsFaithful w → IsFaithful (apply op w)
unfolding apply
apply-IsFaithful (header code) w final v = elim (Bool-cases w.written) [
  | inl old ↦ subst IsFaithful (sym (write_header_again code w old)) v
  | inr new ↦ write_header_first code w final new v
]
apply-IsFaithful (body b n) w final v = write-IsFaithful b n w v

apply_all-IsFaithful :
    (ops : List Op) (w : Wrapped) → All IsFinal ops → IsFaithful w → IsFaithful (apply_all ops w)
unfolding apply_all
apply_all-IsFaithful [] w final v = v
apply_all-IsFaithful (op ∷ ops) w (final, later) v =
    apply_all-IsFaithful ops (apply op w) later (apply-IsFaithful op w final v)

-- However a handler calls `WriteHeader`, with no informational status (1xx but 101), and `Write` on the
-- wrapper of a fresh writer: at most one header is forwarded; the recorded status is the one that the
-- client gets, or 200 while nothing has been sent; and the recorded bytes are the sum of what the
-- underlying writer counted.
pub wrap_response_writer-IsFaithful :
    (ops : List Op) (w : Raw)
    → w.calls ≡ []
    → All IsFinal ops
    → IsFaithful (apply_all ops (wrap_response_writer w))
wrap_response_writer-IsFaithful ops w fresh final =
    apply_all-IsFaithful ops (wrap_response_writer w) final (wrapped_fresh w fresh)

-- Headers that come after one change nothing.
headers_again :
    (codes : List ℕ) (w : Wrapped) → w.written ≡ true → apply_all (map header codes) w ≡ w
unfolding apply_all apply
headers_again [] w h = refl
headers_again (code ∷ codes) w h =
    ap (apply_all (map header codes)) (write_header_again code w h) ∙ headers_again codes w h

-- After an informational status, the wrapper of a fresh writer swallows every later one: whatever
-- headers follow, a body that is written then goes to the client with status 200, and the recorded
-- status is the informational one.
pub wrap_response_writer-informational :
    (code : ℕ) (later : List ℕ) (b : Text) (n : ℕ) (w : Raw)
    → w.calls ≡ []
    → is_informational code ≡ true
    → let done = write b n (apply_all (map header (code ∷ later)) (wrap_response_writer w)) in
      (sent_status done.inner.calls ≡ some 200) × (done.status_code ≡ code)
unfolding apply_all apply write_header write wrap_response_writer sent_status
wrap_response_writer-informational code later b n w fresh h =
    let first = write_header code (wrap_response_writer w) in
    rw (headers_again later first refl) (ground (arith, h, fresh), refl)
