-- ===== src/PayloadLimits/Forwarded.antt =====
-- Which bodies reach the application.
use mathlib.Core.List.{append_assoc}
use agenticqueue.Base.{
  ℕ, ◌+◌, ◌≤◌, String, true, false, Option, some, List, [], ◌∷◌, ◌++◌, length, length-append, ltb,
  Bool-cases, Option-cases, ◌≡◌, refl, sym, ap, ◌∙◌, subst, ◌↔◌, inl, inr, arith,
}
use agenticqueue.Base.Int.{ℤ, pos, ltb_ℤ, ◌≤ℤ◌}
use agenticqueue.Json.{Json}
use agenticqueue.PayloadLimits.{
  Scope, Message, disconnect, chunk, Limits, Outcome, untouched, forwarded, too_large, too_deep,
  dropped, waiting, resolve_content_size_limit, parse_content_length, read_body,
  parse_json_payload_depth, check_depth, handle,
}

-- The messages bring a body to its end.
abbrev pub Delivers : List Message → List ℕ → Type 0
Delivers [] c = ⊥
Delivers (disconnect ∷ ms) c = ⊥
Delivers (chunk b false ∷ ms) c = b ≡ c
Delivers (chunk b true ∷ ms) c = (d : List ℕ) × Delivers ms d × (b ++ d ≡ c)

-- The loop hands on what the messages bring, after what was there, if it is within the limit.
read_body_iff :
    (limit : ℕ) (buffered : List ℕ) (ms : List Message) (c : List ℕ)
    → (read_body limit buffered ms ≡ forwarded c)
      ↔ ((d : List ℕ) × Delivers ms d × (buffered ++ d ≡ c) × (length c ≤ limit))
unfolding read_body
read_body_iff limit buffered [] c = (λ h. absurd (ground arith), λ h. absurd h.1)
read_body_iff limit buffered (disconnect ∷ ms) c = (λ h. absurd (ground arith), λ h. absurd h.1)
read_body_iff limit buffered (chunk b false ∷ ms) c =
    let size = length-append buffered b in
    elim (Bool-cases (ltb limit (length (buffered ++ b)))) [
      | inl over ↦
          rw (over, read_body)
            (
              λ h. absurd (ground arith),
              λ h.
                  let same : length c ≡ length (buffered ++ b) =
                    ap length (sym h.2 ∙ ap (λ r. buffered ++ r) (sym h.1)) in
                  absurd (ground arith),
            )
      | inr fits ↦
          rw (fits, read_body)
            (
              λ h.
                  let same : buffered ++ b ≡ c = cc in
                  (b, refl, same, let size' = ap length same in ground arith),
              λ h. ap forwarded (ap (λ r. buffered ++ r) h.1 ∙ h.2),
            )
    ]
read_body_iff limit buffered (chunk b true ∷ ms) c =
    let rest = read_body_iff limit (buffered ++ b) ms c in
    elim (Bool-cases (ltb limit (length (buffered ++ b)))) [
      | inl over ↦
          rw (over, read_body)
            (
              λ h. absurd (ground arith),
              λ h.
                  let (e, _, parts) = h.1 in
                  let whole : length c ≡ length (buffered ++ b) + length e =
                    ap length (
                      sym h.2
                      ∙ ap (λ r. buffered ++ r) (sym parts)
                      ∙ sym (append_assoc buffered b e))
                    ∙ length-append (buffered ++ b) e in
                  absurd (ground arith),
            )
      | inr fits ↦
          rw (fits, read_body)
            (
              λ h.
                  let (e, brought, whole, small) = rest.0 h in
                  (b ++ e, (e, brought, refl), sym (append_assoc buffered b e) ∙ whole, small),
              λ h.
                  let (e, brought, parts) = h.1 in
                  rest.1 (
                    e,
                    brought,
                    append_assoc buffered b e ∙ ap (λ r. buffered ++ r) parts ∙ h.2,
                    h.3,
                  ),
            )
    ]

module _ (upper : String → String) (lower : String → String) (loads : List ℕ → Option Json) where
  check_depth_iff :
      (max_depth : ℕ) (r : Outcome) (c : List ℕ)
      → (check_depth upper lower loads max_depth r ≡ forwarded c) ↔ (
          (r ≡ forwarded c)
          × ((d : ℕ) → parse_json_payload_depth upper lower loads c ≡ some d → d ≤ max_depth))
  unfolding check_depth
  check_depth_iff max_depth (forwarded b) c =
      elim (Option-cases (parse_json_payload_depth upper lower loads b)) [
        | inl e ↦
            rw (e, check_depth)
              (
                λ h. (
                  h,
                  λ d k.
                      let same : b ≡ c = cc in let k' = rw (sym same) at k in absurd (ground arith),
                ),
                λ h. h.0,
              )
        | inr (n, e) ↦ elim (Bool-cases (ltb max_depth n)) [
          | inl over ↦
              rw (e, over, check_depth)
                (
                  λ h. absurd (ground arith),
                  λ h.
                      let same : b ≡ c = let k = h.0 in cc in
                      let deep = h.1 n (
                        subst (λ x. parse_json_payload_depth upper lower loads x ≡ some n) same
                          e) in
                      absurd (ground arith),
                )
          | inr fits ↦
              rw (e, fits, check_depth)
                (
                  λ h. (
                    h,
                    λ d k.
                        let same : b ≡ c = cc in
                        let k' = rw (sym same) at k in let deep : d ≡ n = cc in ground arith,
                  ),
                  λ h. h.0,
                )
        ]
      ]
  check_depth_iff max_depth untouched c =
      (λ h. absurd (ground arith), λ h. absurd (let k = h.0 in ground arith))
  check_depth_iff max_depth (too_large l a) c =
      (λ h. absurd (ground arith), λ h. absurd (let k = h.0 in ground arith))
  check_depth_iff max_depth (too_deep l a) c =
      (λ h. absurd (ground arith), λ h. absurd (let k = h.0 in ground arith))
  check_depth_iff max_depth dropped c =
      (λ h. absurd (ground arith), λ h. absurd (let k = h.0 in ground arith))
  check_depth_iff max_depth waiting c =
      (λ h. absurd (ground arith), λ h. absurd (let k = h.0 in ground arith))

  -- Of a request whose size is limited, a body reaches the application exactly when the messages
  -- bring it to its end, it is no longer than the limit, a length that was declared is not over the
  -- limit either, and, if it is JSON, it is nested no deeper than allowed.
  pub handle-forwarded_iff :
      (limits : Limits) (scope : Scope) (ms : List Message) (c : List ℕ) {limit : ℕ}
      → resolve_content_size_limit upper lower scope limits ≡ some limit
      → (handle upper lower loads limits scope ms ≡ forwarded c) ↔ (
          Delivers ms c
          × (length c ≤ limit)
          × ((n : ℤ) → parse_content_length upper lower scope ≡ some n → n ≤ℤ pos limit)
          × ((d : ℕ)
              → parse_json_payload_depth upper lower loads c ≡ some d
              → d ≤ limits.max_payload_depth))
  unfolding handle
  handle-forwarded_iff limits scope ms c {limit} h =
      let depth = check_depth_iff limits.max_payload_depth (read_body limit [] ms) c in
      let body = read_body_iff limit [] ms c in
      let into : check_depth upper lower loads limits.max_payload_depth (read_body limit [] ms)
            ≡ forwarded c
          → Delivers ms c
            × (length c ≤ limit)
            × ((d : ℕ)
                → parse_json_payload_depth upper lower loads c ≡ some d
                → d ≤ limits.max_payload_depth) =
        λ k.
          let (k', deep) = depth.0 k in
          let (d, brought, same, small) = body.0 k' in
          (subst (Delivers ms) same brought, small, deep) in
      elim (Option-cases (parse_content_length upper lower scope)) [
        | inl e ↦
            rw (h, e, handle)
              (
                λ k.
                    let (brought, small, deep) = into k in
                    (brought, small, λ n m. absurd (ground arith), deep),
                λ k. depth.1 (body.1 (c, k.0, refl, k.1), k.3),
              )
        | inr (n, e) ↦ elim (Bool-cases (ltb_ℤ (pos limit) n)) [
          | inl over ↦
              rw (h, e, over, handle)
                (λ k. absurd (ground arith), λ k. let small = k.2 n refl in absurd (ground arith))
          | inr fits ↦
              rw (h, e, fits, handle)
                (
                  λ k.
                      let (brought, small, deep) = into k in
                      (
                        brought,
                        small,
                        λ m q.
                            let same : n ≡ m = cc in
                            subst (λ x. x ≤ℤ pos limit) same (ground arith),
                        deep,
                      ),
                  λ k. depth.1 (body.1 (c, k.0, refl, k.1), k.3),
                )
        ]
      ]
