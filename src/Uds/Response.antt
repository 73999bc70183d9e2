-- ===== src/Uds/Response.antt =====
-- uds-core/src/state.rs: what is stored as a response is what the transport loads.
use rust_foc.Common.{
  ℕ, ◌%◌, ◌≤◌, min, List, ◌++◌, ◌≡◌, refl, ◌∙◌, arith, length, take, drop, replicate, length-take,
  length-append, take-append_left, take-length,
}
use rust_foc.Uds.State.{Globals, store_response, response}

take_stored : (n : ℕ) (xs ys zs : List ℕ) → length xs ≡ n → take n (take n (xs ++ ys) ++ zs) ≡ xs
take_stored n xs ys zs h =
    take-append_left n (take n (xs ++ ys)) zs
      (omega (arith, length-take n (xs ++ ys), length-append xs ys))
    ∙ (take-length n (take n (xs ++ ys)) (omega (arith, length-take n (xs ++ ys)))
        ∙ (take-append_left n xs ys (omega arith) ∙ take-length n xs (omega arith)))

module _ {W : Type 0} where
  -- A payload that fits the 64-byte buffer is loaded as it was stored, whatever the buffer held.
  pub response-store_response :
      (p : List ℕ) (g : Globals W) → length p ≤ 64 → response (store_response p g) ≡ p
  unfolding response store_response
  response-store_response p g h =
      let e : min (length p) 64 ≡ length p = omega arith in
      let e' : length p % 256 ≡ length p = omega arith in
      rw (e, e', e, take-length (length p) p (omega arith))
        (take_stored (length p) p (drop (length p) g.response_buf) (replicate _ 0) refl)
