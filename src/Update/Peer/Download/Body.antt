-- ===== src/Update/Peer/Download/Body.antt =====
-- The loop of `download_update`: it ends, and what it has written when it finishes.
use wire_app.Common.{
  ℕ, zero, suc, ◌+◌, ◌-◌, ◌≤◌, ◌<◌, ◌≡◌, inl, inr, refl, sym, ap, subst, ◌∙◌, arith, min,
  Bool-cases, ltb, List, [], ◌∷◌, ◌++◌, append_assoc, length, length-append, take,
  take-length-append,
}
use wire_app.Update.Peer.Download.{
  chunk_bytes, Read, got, ended, stalled, broken, Disk, DownloadError, Transfer, finished, fails,
  unfinished, closed_early, timed_out, lost, not_written, after_read, receive_body,
}

-- A transfer that came to its end.
pub data Ends : Transfer → Type 0 where
  by_finish : (b : List ℕ) → Ends (finished b)
  by_failure : (e : DownloadError) (b : List ℕ) → Ends (fails e b)

module _ {Stream : Type 0} (read : ℕ → Stream → Read × Stream) (disk : Disk) where
  after_read-Ends :
      (continue : List ℕ → Stream → Transfer) (content : List ℕ) (r : Read × Stream)
      → ((b : ℕ) (bytes : List ℕ) (s : Stream) → Ends (continue (content ++ b ∷ bytes) s))
      → Ends (after_read read disk continue content r)
  unfolding after_read
  after_read-Ends continue content (ended, s) h = by_failure closed_early content
  after_read-Ends continue content (stalled, s) h = by_failure timed_out content
  after_read-Ends continue content (broken, s) h = by_failure lost content
  after_read-Ends continue content (got [], s) h = by_failure closed_early content
  after_read-Ends continue content (got (b ∷ bytes), s) h =
      elim (Bool-cases (disk.writes (length content))) [
        | inl e ↦ rw e (h b bytes s)
        | inr e ↦ rw e (by_failure not_written content)
      ]

  -- One unit of fuel for each byte that is still to come, and one more, is enough: the loop ends, whatever the
  -- stream and the disk do.
  pub receive_body-Ends :
      (fuel total : ℕ) (content : List ℕ) (s : Stream)
      → total < length content + fuel
      → 1 ≤ fuel
      → Ends (receive_body read disk fuel total content s)
  unfolding receive_body
  receive_body-Ends zero total content s h l = absurd (omega arith)
  receive_body-Ends (suc fuel) total content s h l =
      elim (Bool-cases (ltb (length content) total)) [
        | inl e ↦ rw e (
            after_read-Ends (receive_body read disk fuel total) content _ (λ b bytes s'.
              receive_body-Ends fuel total (content ++ b ∷ bytes) s'
                (omega (arith, length-append content (b ∷ bytes))) (ground arith)))
        | inr e ↦ rw e (elim (Bool-cases disk.flushes) [
          | inl f ↦ rw f (by_finish content)
          | inr f ↦ rw f (by_failure not_written content)
        ])
      ]

  -- The bytes that a stream has still to give. A read takes some off its front, as many as were asked
  -- for at most.
  module _ (rest : Stream → List ℕ) where
    abbrev pub Delivers : ℕ → Stream → Read × Stream → Type 0
    Delivers k s (got b, s') = (rest s ≡ b ++ rest s') × (length b ≤ k)
    Delivers k s (ended, s') = Unit
    Delivers k s (stalled, s') = Unit
    Delivers k s (broken, s') = Unit

    -- What is on the disk after a transfer of `total` bytes from this source.
    pub data Downloaded (total : ℕ) (source : List ℕ) : Transfer → Type 0 where
      whole :
          (b : List ℕ)
          → length b ≡ total
          → take total source ≡ b
          → Downloaded total source (finished b)
      part :
          (e : DownloadError) (b : List ℕ)
          → length b ≤ total
          → take (length b) source ≡ b
          → Downloaded total source (fails e b)
      waiting : Downloaded total source unfinished

    front :
        (total : ℕ) (source content : List ℕ) (s : Stream)
        → content ++ rest s ≡ source
        → take (length content) source ≡ content
    front total source content s e =
        subst (λ t. take (length content) t ≡ content) e (take-length-append content (rest s))

    after_read-Downloaded :
        (continue : List ℕ → Stream → Transfer) (total : ℕ) (source content : List ℕ) (s : Stream)
        (r : Read × Stream)
        → content ++ rest s ≡ source
        → length content ≤ total
        → Delivers (min (total - length content) chunk_bytes) s r
        → ((c : List ℕ) (s' : Stream)
            → c ++ rest s' ≡ source
            → length c ≤ total
            → Downloaded total source (continue c s'))
        → Downloaded total source (after_read read disk continue content r)
    unfolding after_read
    after_read-Downloaded continue total source content s (ended, s') e l d h =
        part closed_early content l (front total source content s e)
    after_read-Downloaded continue total source content s (stalled, s') e l d h =
        part timed_out content l (front total source content s e)
    after_read-Downloaded continue total source content s (broken, s') e l d h =
        part lost content l (front total source content s e)
    after_read-Downloaded continue total source content s (got [], s') e l d h =
        part closed_early content l (front total source content s e)
    after_read-Downloaded continue total source content s (got (b ∷ bytes), s') e l d h =
        elim (Bool-cases (disk.writes (length content))) [
          | inl w ↦ rw w (
              h (content ++ b ∷ bytes) s'
                (append_assoc content (b ∷ bytes) (rest s') ∙ ap (λ t. content ++ t) (sym d.0) ∙ e)
                (omega (arith, d.1, length-append content (b ∷ bytes))))
          | inr w ↦ rw w (part not_written content l (front total source content s e))
        ]

    receive_body-from :
        ((k : ℕ) (s : Stream) → Delivers k s (read k s))
        → (fuel total : ℕ) (source content : List ℕ) (s : Stream) → content ++ rest s ≡ source
        → length content ≤ total
        → Downloaded total source (receive_body read disk fuel total content s)
    unfolding receive_body
    receive_body-from honest zero total source content s e l = waiting
    receive_body-from honest (suc fuel) total source content s e l =
        elim (Bool-cases (ltb (length content) total)) [
          | inl t ↦ rw t (
              after_read-Downloaded (receive_body read disk fuel total) total source content s _ e l
                (honest (min (total - length content) chunk_bytes) s)
                (λ c s' e l. receive_body-from honest fuel total source c s' e l))
          | inr t ↦
              let n : length content ≡ total = ground arith in
              rw t (elim (Bool-cases disk.flushes) [
                | inl f ↦ rw f (
                    whole content n
                      (subst (λ k. take k source ≡ content) n (front total source content s e)))
                | inr f ↦ rw f (part not_written content l (front total source content s e))
              ])
        ]

    -- Where every read takes bytes off the front of the stream, a transfer that finishes has written exactly
    -- the first `total` bytes of the stream, and one that fails a front part of them.
    pub receive_body-Downloaded :
        ((k : ℕ) (s : Stream) → Delivers k s (read k s))
        → (fuel total : ℕ) (s : Stream)
        → Downloaded total (rest s) (receive_body read disk fuel total [] s)
    receive_body-Downloaded honest fuel total s =
        receive_body-from honest fuel total (rest s) [] s refl (omega arith)
