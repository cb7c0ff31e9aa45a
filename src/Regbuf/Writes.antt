-- ===== src/Regbuf/Writes.antt =====
-- What a vectored write leaves in the file, whatever the system answers.
use native.Mathlib.Nat.{zero-add, suc-add}
use zerokv.Prelude.{
  ℕ, zero, suc, ◌+◌, ◌≤◌, ◌<◌, ◌≡◌, ◌⊎◌, inl, inr, refl, sym, subst, ap, ◌∙◌, Option, some, List,
  [], ◌∷◌, ◌++◌, length, length-append, length-take, length-drop, take, drop, take-append-drop,
  take-length, take-append_le, arith,
}
use zerokv.Memory.{write_bytes, write_bytes-append}
use zerokv.Regbuf.{
  Outcome, ok, os_error, write_zero, File, IsFile, after_write, write_loop, write_all_at,
  after_slice, write_slices, write_vectored,
}

abbrev pub flat : List (List ℕ) → List ℕ
flat [] = []
flat (x ∷ xs) = x ++ flat xs

abbrev pub IsError : Outcome → Type 0
IsError r = (r ≡ os_error) ⊎ (r ≡ write_zero)

module _ {S : Type 0} (file : File S) where
  -- A write of `bytes` at `offset` that returned `r`: the first `sent` bytes are in the file; all of
  -- them, if it returned `total`.
  pub record Sent (s : S) (bytes : List ℕ) (offset total : ℕ) (r : Outcome) (s' : S) : Type 0 where
    pub sent : ℕ
    pub upto : sent ≤ length bytes
    pub stored : file.bytes s' ≡ write_bytes (file.bytes s) offset (take sent bytes)
    pub whole : ((r ≡ ok total) × (sent ≡ length bytes)) ⊎ IsError r

  abbrev pub Finishes : Option (Outcome × S) → S → List ℕ → ℕ → ℕ → Type 0
  Finishes result s bytes offset total =
      (r : Outcome) × (s' : S) × (result ≡ some (r, s')) × Sent s bytes offset total r s'

  Sent-nothing :
      (s s' : S) (bytes : List ℕ) (offset total : ℕ) (r : Outcome)
      → file.bytes s' ≡ file.bytes s
      → IsError r
      → Sent s bytes offset total r s'
  unfolding write_bytes
  Sent-nothing s s' bytes offset total r e bad = record {
    sent = 0;
    upto = omega arith;
    stored = e;
    whole = inr bad;
  }

  -- The first part of the bytes, and then the others.
  Sent-append :
      (s mid s' : S) (xs ys : List ℕ) (offset total : ℕ) (r : Outcome)
      → file.bytes mid ≡ write_bytes (file.bytes s) offset xs
      → Sent mid ys (offset + length xs) total r s'
      → Sent s (xs ++ ys) offset total r s'
  Sent-append s mid s' xs ys offset total r first rest = record {
    sent = length xs + rest.sent;
    upto = omega (arith, length-append xs ys, rest.upto);
    stored =
        rest.stored
        ∙ ap (λ m. write_bytes m (offset + length xs) (take rest.sent ys)) first
        ∙ write_bytes-append (file.bytes s) offset xs (take rest.sent ys)
        ∙ ap (write_bytes (file.bytes s) offset) (sym (take-past xs ys rest.sent));
    whole = elim rest.whole [
      | inl h ↦ inl (h.0, omega (arith, length-append xs ys, h.1))
      | inr h ↦ inr h
    ];
  }
    where
      take-past : (us bs : List ℕ) (n : ℕ) → take (length us + n) (us ++ bs) ≡ us ++ take n bs
      take-past [] bs n = ap (λ m. take m bs) (zero-add n)
      take-past (a ∷ us) bs n =
          ap (λ m. take m (a ∷ us ++ bs)) (suc-add (length us) n)
          ∙ ap (λ l. a ∷ l) (take-past us bs n)

  -- An error leaves a part of the first bytes in the file, however many others were to follow.
  Sent-failed :
      (s s' : S) (xs ys : List ℕ) (offset total total' : ℕ) (r : Outcome)
      → IsError r
      → Sent s xs offset total r s'
      → Sent s (xs ++ ys) offset total' r s'
  Sent-failed s s' xs ys offset total total' r bad h = record {
    sent = h.sent;
    upto = omega (arith, h.upto, length-append xs ys);
    stored =
        h.stored
        ∙ ap (write_bytes (file.bytes s) offset) (sym (take-append_le h.sent xs ys h.upto));
    whole = inr bad;
  }

  module _ (law : IsFile file) where
    after_write-Sent :
        (s : S) (b : ℕ) (bs : List ℕ) (offset total : ℕ) (again : S → ℕ → Option (Outcome × S))
        → ((s' : S) (n : ℕ)
            → 0 < n
            → n ≤ suc (length bs)
            → Finishes (again s' n) s' (drop n (b ∷ bs)) (offset + n) total)
        → (a : Outcome × S) → file.write_at s (b ∷ bs) offset ≡ a
        → Finishes (after_write file again a) s (b ∷ bs) offset total
    unfolding after_write write_bytes
    after_write-Sent s b bs offset total again ih (ok zero, s') e =
        let stored = (law.written s s' (b ∷ bs) offset 0 e).1 in
        (write_zero, s', refl, Sent-nothing s s' (b ∷ bs) offset total write_zero stored (inr refl))
    after_write-Sent s b bs offset total again ih (ok (suc n), s') e =
        let (within, stored) = law.written s s' (b ∷ bs) offset (suc n) e in
        let split : length (take (suc n) (b ∷ bs)) ≡ suc n =
          length-take (suc n) (b ∷ bs) ∙ omega (arith, within) in
        let (r, last, ran, rest) = ih s' (suc n) (omega arith) within in
        (
          r,
          last,
          ran,
          subst (λ l. Sent s l offset total r last) (take-append-drop (suc n) (b ∷ bs))
              (Sent-append s s' last (take (suc n) (b ∷ bs)) (drop (suc n) (b ∷ bs)) offset total r
                stored
                (subst (λ m. Sent s' (drop (suc n) (b ∷ bs)) (offset + m) total r last) (sym split)
                  rest)),
        )
    after_write-Sent s b bs offset total again ih (os_error, s') e = (
      os_error,
      s',
      refl,
      Sent-nothing s s' (b ∷ bs) offset total os_error (law.refused s s' (b ∷ bs) offset e)
          (inl refl),
    )
    after_write-Sent s b bs offset total again ih (write_zero, s') e =
        absurd (law.no_zero s s' (b ∷ bs) offset e)

    write_loop-Sent :
        (f : ℕ) (s : S) (bytes : List ℕ) (offset total : ℕ)
        → length bytes < f
        → Finishes (write_loop file f s bytes offset total) s bytes offset total
    unfolding write_loop write_bytes
    write_loop-Sent zero s bytes offset total h = absurd (omega arith)
    write_loop-Sent (suc f) s [] offset total h = (
      ok total,
      s,
      refl,
      record { sent = 0; upto = omega arith; stored = refl; whole = inl (refl, refl) },
    )
    write_loop-Sent (suc f) s (b ∷ bs) offset total h =
        after_write-Sent s b bs offset total _
          (λ s' n pos within.
            write_loop-Sent f s' (drop n (b ∷ bs)) (offset + n) total
              (omega (arith, length-drop n (b ∷ bs), within, pos)))
          (file.write_at s (b ∷ bs) offset) refl

    write_all_at-Sent :
        (s : S) (bytes : List ℕ) (offset : ℕ)
        → Finishes (write_all_at file s bytes offset) s bytes offset (length bytes)
    unfolding write_all_at
    write_all_at-Sent s bytes offset =
        write_loop-Sent (suc (length bytes)) s bytes offset (length bytes) (omega arith)

    after_slice-Sent :
        (s : S) (pos total : ℕ) (x xs : List ℕ) (again : S → ℕ → Option (Outcome × S))
        → ((s' : S) → Finishes (again s' (length x)) s' xs (pos + length x) total)
        → (r : Outcome) (s' : S) → Sent s x pos (length x) r s'
        → Finishes (after_slice file again (some (r, s'))) s (x ++ xs) pos total
    unfolding after_slice
    after_slice-Sent s pos total x xs again ih (ok n) s' first = elim first.whole [
      | inl h ↦
          let all : n ≡ length x = ap (λ o. elim o [ ok m ↦ m | _ ↦ 0 ]) h.0 in
          let (r, last, ran, rest) = ih s' in
          (
            r,
            last,
            ap (again s') all ∙ ran,
            Sent-append s s' last x xs pos total r
                (first.stored
                  ∙ ap (write_bytes (file.bytes s) pos) (ap (λ m. take m x) h.1 ∙ take-length x))
                rest,
          )
      | inr h ↦ absurd (ok-IsError h)
    ]
      where
        ok-IsError : ¬ IsError (ok n)
        ok-IsError (inl e) = cc
        ok-IsError (inr e) = cc
    after_slice-Sent s pos total x xs again ih os_error s' first =
        (os_error, s', refl, Sent-failed s s' x xs pos (length x) total os_error (inl refl) first)
    after_slice-Sent s pos total x xs again ih write_zero s' first = (
      write_zero,
      s',
      refl,
      Sent-failed s s' x xs pos (length x) total write_zero (inr refl) first,
    )

    write_slices-Sent :
        (s : S) (pos total : ℕ) (bufs : List (List ℕ))
        → Finishes
            (write_slices file s pos total bufs)
            s
            (flat bufs)
            pos
            (total + length (flat bufs))
    unfolding write_slices write_bytes
    write_slices-Sent s pos total [] = (
      ok total,
      s,
      refl,
      record {
        sent = 0;
        upto = omega arith;
        stored = refl;
        whole = inl (ap ok (omega arith), refl);
      },
    )
    write_slices-Sent s pos total (x ∷ xs) =
        let (r, s', ran, first) = write_all_at-Sent s x pos in
        let summed : total + length x + length (flat xs) ≡ total + length (flat (x ∷ xs)) =
          omega (arith, length-append x (flat xs)) in
        rw ran (
          after_slice-Sent s pos (total + length (flat (x ∷ xs))) x (flat xs) _
            (λ m. rw (← summed) (write_slices-Sent m (pos + length x) (total + length x) xs)) r s'
            first)

-- Whatever the system answers, a vectored write finishes. It either returns the number of the
-- bytes of all buffers, and then they stand one after another in the file from `offset` on; or it
-- returns an error, and then some first part of those bytes stands there. Nothing else changes.
pub write_vectored-Sent :
    {S : Type 0} (file : File S) (s : S) (offset : ℕ) (bufs : List (List ℕ))
    → IsFile file
    → Finishes file (write_vectored file s offset bufs) s (flat bufs) offset (length (flat bufs))
unfolding write_vectored
write_vectored-Sent file s offset bufs law =
    subst (Finishes file (write_slices file s offset 0 bufs) s (flat bufs) offset) (omega arith)
      (write_slices-Sent file law s offset 0 bufs)
