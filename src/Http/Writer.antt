-- ===== src/Http/Writer.antt =====
-- The status code that the writer remembers, and the one that the client is sent.
use load_shedding.Prelude.{
  ℕ, suc, ◌+◌, ◌≡◌, refl, Bool, true, false, List, [], ◌∷◌, ◌++◌, arith, if◌then◌else◌, ◌≤◌,
  Bool-cases, inl, inr, leb, ◌&&◌, not, ◌==◌,
}
use load_shedding.Http.{
  Call, header, body, close_connection, CodeWriter, new_code_writer, write_header, write, apply,
  status_ok,
}

-- The statuses that net/http sends ahead of the response, any number of them.
abbrev pub is_informational : ℕ → Bool
is_informational code = leb 100 code && leb code 199 && not (code == 101)

-- What net/http makes of the calls: the first status that is not informational counts, and a body with
-- none before it, or no such status at all, sends 200.
abbrev pub sent_status : List Call → ℕ
sent_status [] = status_ok
sent_status (header code ∷ rest) =
    let later = sent_status rest in if is_informational code then later else code
sent_status (body b ∷ rest) = status_ok
sent_status (close_connection ∷ rest) = sent_status rest

-- What a client gets that is sent this status alone.
abbrev pub final_status : ℕ → ℕ
final_status code = if is_informational code then status_ok else code

-- The first status that a handler sets, of whatever kind; a body with none before it sets 200.
abbrev pub first_status : List Call → ℕ
first_status [] = status_ok
first_status (header code ∷ rest) = code
first_status (body b ∷ rest) = status_ok
first_status (close_connection ∷ rest) = first_status rest

abbrev pub headers : List Call → ℕ
headers [] = 0
headers (header code ∷ rest) = suc (headers rest)
headers (_ ∷ rest) = headers rest

-- A header or a body has gone out.
abbrev pub is_decided : List Call → Bool
is_decided [] = false
is_decided (close_connection ∷ rest) = is_decided rest
is_decided (_ ∷ rest) = true

sent_none : (xs : List Call) → headers xs ≡ 0 → sent_status xs ≡ status_ok
sent_none [] h = refl
sent_none (header code ∷ xs) h = absurd (omega (arith, h))
sent_none (body b ∷ xs) h = refl
sent_none (close_connection ∷ xs) h = sent_none xs h

sent_first : (xs : List Call) → headers xs ≤ 1 → sent_status xs ≡ final_status (first_status xs)
sent_first [] h = refl
sent_first (header code ∷ xs) h = ground (arith, sent_none xs (omega (arith, h)))
sent_first (body b ∷ xs) h = refl
sent_first (close_connection ∷ xs) h = sent_first xs h

headers-append : (xs ys : List Call) → headers (xs ++ ys) ≡ headers xs + headers ys
headers-append [] ys = omega arith
headers-append (header code ∷ xs) ys = omega (arith, headers-append xs ys)
headers-append (body b ∷ xs) ys = headers-append xs ys
headers-append (close_connection ∷ xs) ys = headers-append xs ys

first_status-append :
    (xs ys : List Call)
    → (first_status (xs ++ ys) ≡ (if is_decided xs then first_status xs else first_status ys))
      × (is_decided (xs ++ ys) ≡ (if is_decided xs then true else is_decided ys))
first_status-append [] ys = (refl, refl)
first_status-append (header code ∷ xs) ys = (refl, refl)
first_status-append (body b ∷ xs) ys = (refl, refl)
first_status-append (close_connection ∷ xs) ys = first_status-append xs ys

-- The writer agrees with the client.
record Inv (w : CodeWriter) : Type 0 where
  decided : is_decided w.underlying ≡ w.wrote_header
  one : headers w.underlying ≡ (if w.wrote_header then 1 else 0)
  same : w.code ≡ first_status w.underlying
  default : w.wrote_header ≡ false → w.code ≡ status_ok

write_header-Inv :
    (code : ℕ) (w : CodeWriter)
    → Inv w
    → Inv (write_header code w)
      × ((write_header code w).code ≡ (if w.wrote_header then w.code else code))
      × ((write_header code w).wrote_header ≡ true)
unfolding write_header
write_header-Inv code w v = ground (
  arith,
  headers-append w.underlying (header code ∷ []),
  first_status-append w.underlying (header code ∷ []),
)

body-Inv :
    (b : List ℕ) (w : CodeWriter)
    → w.wrote_header ≡ true
    → Inv w
    → Inv (record w { underlying = w.underlying ++ body b ∷ [] })
body-Inv b w h v = ground (
  arith,
  headers-append w.underlying (body b ∷ []),
  first_status-append w.underlying (body b ∷ []),
)

close-Inv :
    (w : CodeWriter) → Inv w → Inv (record w { underlying = w.underlying ++ close_connection ∷ [] })
close-Inv w v = ground (
  arith,
  headers-append w.underlying (close_connection ∷ []),
  first_status-append w.underlying (close_connection ∷ []),
)

write-Inv :
    (b : List ℕ) (w : CodeWriter)
    → Inv w
    → Inv (write b w)
      × ((write b w).code ≡ (if w.wrote_header then w.code else status_ok))
      × ((write b w).wrote_header ≡ true)
unfolding write
write-Inv b w v = elim (Bool-cases w.wrote_header) [
  | inl late ↦ ground (arith, body-Inv b w late v)
  | inr early ↦
      let h = write_header-Inv status_ok w v in
      ground (arith, h, body-Inv b (write_header status_ok w) h.2 h.0)
]

apply-Inv :
    (calls : List Call) (w : CodeWriter)
    → Inv w
    → Inv (apply calls w)
      × ((apply calls w).code ≡ (if w.wrote_header then w.code else first_status calls))
unfolding apply
apply-Inv [] w v = ground arith
apply-Inv (header code ∷ rest) w v =
    let h = write_header-Inv code w v in ground (arith, h, apply-Inv rest (write_header code w) h.0)
apply-Inv (body b ∷ rest) w v =
    let h = write-Inv b w v in ground (arith, h, apply-Inv rest (write b w) h.0)
apply-Inv (close_connection ∷ rest) w v =
    apply-Inv rest (record w { underlying = w.underlying ++ close_connection ∷ [] }) (close-Inv w v)

-- Whatever a handler calls: the status that the writer remembers, by which the middleware judges the
-- request, is the first one that the handler set, or 200 if it wrote a body before or set none; the
-- client is sent that status, or 200 where it is informational, whatever status the handler sets after
-- it; and at most one status goes to the underlying writer.
pub apply-code :
    (calls : List Call)
    → let w = apply calls (new_code_writer []) in
      (w.code ≡ first_status calls)
      × (sent_status w.underlying ≡ final_status w.code)
      × (headers w.underlying ≤ 1)
apply-code calls =
    let w' = apply calls (new_code_writer []) in
    let (v, e) =
      apply-Inv calls (new_code_writer [])
        (record { decided = refl; one = refl; same = refl; default = λ _. refl }) in
    let few : headers w'.underlying ≤ 1 = ground (arith, v.one) in
    (e, rw v.same (sent_first w'.underlying few), few)
