-- ===== src/Keepalive/Exhaustion.antt =====
-- When the loop of the IPsec keepalive is over.
use snx_rs.Prelude.{
  ℕ, zero, suc, ◌+◌, ◌≤◌, ◌<◌, none, List, [], ◌∷◌, ◌++◌, ◌≡◌, refl, ap, sym, ◌∙◌, ◌↔◌,
  append_assoc, dec_lt, arith,
}
use snx_rs.Keepalive.Ipsec.{Round, not_ready, answered, unanswered, run_step, run}

-- So many rounds without an answer.
unfoldable pub silence : ℕ → List Round
silence zero = []
silence (suc n) = unanswered ∷ silence n

silence_shift : (n : ℕ) (rs : List Round) → silence n ++ unanswered ∷ rs ≡ silence (suc n) ++ rs
unfolding silence
silence_shift zero rs = refl
silence_shift (suc n) rs = ap (λ t. unanswered ∷ t) (silence_shift n rs)

run-silence : (k n : ℕ) (post : List Round) → 5 ≤ n + suc k → run (silence (suc k) ++ post) n ≡ none
unfolding run run_step silence
run-silence zero n post h = ground arith
run-silence (suc k) n post h = ground (arith, run-silence k (n + 1) post)

run-append_silence : (pre post : List Round) (n : ℕ) → run (pre ++ (silence 5 ++ post)) n ≡ none
unfolding run run_step
run-append_silence [] post n = run-silence 4 n post (omega arith)
run-append_silence (not_ready ∷ pre) post n = run-append_silence pre post 0
run-append_silence (answered rtt ∷ pre) post n = run-append_silence pre post 0
run-append_silence (unanswered ∷ pre) post n = ground (arith, run-append_silence pre post (n + 1))

-- There is a silence of five rounds somewhere in the list.
unfoldable pub HasSilence : List Round → Type 0
HasSilence rs = (pre post : List Round) × (rs ≡ pre ++ (silence 5 ++ post))

silence-run : (rs : List Round) (n : ℕ) → n < 5 → run rs n ≡ none → HasSilence (silence n ++ rs)
unfolding run run_step HasSilence silence
silence-run [] n b h = ground arith
silence-run (not_ready ∷ rs) n b h =
    let (pre, post, e) = silence-run rs 0 (omega arith) h in
    (
      silence n ++ not_ready ∷ pre,
      post,
      ap (λ t. silence n ++ not_ready ∷ t) e
          ∙ sym (append_assoc (silence n) (not_ready ∷ pre) (silence 5 ++ post)),
    )
silence-run (answered rtt ∷ rs) n b h =
    let (pre, post, e) = silence-run rs 0 (omega arith) h in
    (
      silence n ++ answered rtt ∷ pre,
      post,
      ap (λ t. silence n ++ answered rtt ∷ t) e
          ∙ sym (append_assoc (silence n) (answered rtt ∷ pre) (silence 5 ++ post)),
    )
silence-run (unanswered ∷ rs) n b h = elim (dec_lt n 4) [
  | yes small ↦ rw (silence_shift n rs) (silence-run rs (suc n) (omega arith) (ground arith))
  | no large ↦
      let four : n ≡ 4 = omega arith in
      ([], rs, silence_shift n rs ∙ ap (λ k. silence (suc k) ++ rs) four)
]

-- The loop of the IPsec keepalive, from its start, is over by some rounds exactly if five of them
-- in a row had no answer.
pub run-HasSilence : (rs : List Round) → (run rs 0 ≡ none) ↔ HasSilence rs
unfolding HasSilence silence
run-HasSilence rs =
    (silence-run rs 0 (omega arith), λ (pre, post, e). rw e (run-append_silence pre post 0))
