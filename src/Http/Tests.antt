-- ===== src/Http/Tests.antt =====
-- A handler that writes a body, and then a status too late.
use load_shedding.Prelude.{◌≡◌, refl, ◌≤◌, List, [], ◌∷◌}
use load_shedding.Http.{Call, header, body, new_code_writer, apply, write_header}
use load_shedding.Http.Writer.{apply-code, first_status, sent_status, final_status, headers}

abbrev calls : List Call
calls = body (104 ∷ 105 ∷ []) ∷ header 500 ∷ []

apply-code_example :
    let w = apply calls (new_code_writer []) in
    (w.code ≡ first_status calls)
    × (sent_status w.underlying ≡ final_status w.code)
    × (headers w.underlying ≤ 1)
apply-code_example = apply-code calls

-- An early hint hides the error that comes after it.
hint_hides_error :
    let w = apply (header 103 ∷ header 500 ∷ []) (new_code_writer []) in
    (w.code ≡ 103) × (sent_status w.underlying ≡ 200)
unfolding apply write_header
hint_hides_error = (refl, refl)
