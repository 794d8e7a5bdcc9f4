-- ===== src/Journal/Writer/Durable.antt =====
-- What a call writes stands behind what was written before, in every durability mode.
use embeddenator_fs.Prelude.{
  ℕ, ◌≡◌, refl, sym, subst, ap, ◌∙◌, List, [], ◌∷◌, ◌++◌, append_assoc, append-nil, leb, length,
  Bool-cases, inl, inr,
}
use embeddenator_fs.Journal.Writer.{
  DurabilityMode, immediate, group_commit, relaxed, Disk, Journal, flush_buffer, write_all,
  write_each, flush_pending, write_record,
}
use embeddenator_fs.Journal.Writer.Appending.{
  IsAppending, contents, joined, flush_buffer-IsAppending, flushed_contents, write_all-IsAppending,
  write_each-IsAppending,
}

-- Everything written, in the file, in the buffer or in the queue.
unfoldable pub logged : Journal → List ℕ
logged j = contents j.disk ++ joined j.pending_writes

-- Only a group commit has a queue.
unfoldable pub QueueFits : DurabilityMode → List (List ℕ) → Type 0
QueueFits immediate ws = ws ≡ []
QueueFits (group_commit n) ws = Unit
QueueFits relaxed ws = ws ≡ []

unfoldable pub IsReady : Journal → Type 0
IsReady j = IsAppending j.disk × QueueFits j.mode j.pending_writes

pub nothing_fits : (m : DurabilityMode) → QueueFits m []
unfolding QueueFits
nothing_fits immediate = refl
nothing_fits (group_commit n) = tt
nothing_fits relaxed = refl

pub flush_pending_empty : (j : Journal) → j.pending_writes ≡ [] → flush_pending j ≡ j
unfolding flush_pending
flush_pending_empty j e = rw (flush_pending, e) (ap (λ t. record j { pending_writes = t }) e)

unfoldable pub flushed_with : List (List ℕ) → Journal → Journal
flushed_with ws j = record j { disk = flush_buffer (write_each ws j.disk); pending_writes = [] }

pub flush_pending_some :
    (j : Journal) (w : List ℕ) (ws : List (List ℕ))
    → j.pending_writes ≡ w ∷ ws
    → flush_pending j ≡ flushed_with (w ∷ ws) j
unfolding flush_pending flushed_with
flush_pending_some j w ws e = rw (flush_pending, e) refl

flushed_with-IsReady :
    (ws : List (List ℕ)) (j : Journal)
    → IsReady j
    → j.pending_writes ≡ ws
    → IsReady (flushed_with ws j)
      × (logged (flushed_with ws j) ≡ logged j)
      × ((flushed_with ws j).pending_writes ≡ [])
unfolding IsReady flushed_with logged joined
flushed_with-IsReady ws j h e =
    let (there, same) = write_each-IsAppending ws j.disk h.0 in
    (
      ((flush_buffer-IsAppending (write_each ws j.disk) there).0, nothing_fits j.mode),
      append-nil _
          ∙ flushed_contents (write_each ws j.disk) there
          ∙ same
          ∙ ap (λ t. contents j.disk ++ joined t) (sym e),
      refl,
    )

pub flush_pending-IsReady :
    (j : Journal)
    → IsReady j
    → IsReady (flush_pending j)
      × (logged (flush_pending j) ≡ logged j)
      × ((flush_pending j).pending_writes ≡ [])
flush_pending-IsReady j h = go j.pending_writes refl
  where
    go :
        (ws : List (List ℕ))
        → j.pending_writes ≡ ws
        → IsReady (flush_pending j)
          × (logged (flush_pending j) ≡ logged j)
          × ((flush_pending j).pending_writes ≡ [])
    go [] e = rw (flush_pending_empty j e) (h, refl, e)
    go (w ∷ ws) e = rw (flush_pending_some j w ws e) (flushed_with-IsReady (w ∷ ws) j h e)

joined-append : (xs ys : List (List ℕ)) → joined (xs ++ ys) ≡ joined xs ++ joined ys
unfolding joined
joined-append [] ys = refl
joined-append (x ∷ xs) ys =
    ap (λ t. x ++ t) (joined-append xs ys) ∙ sym (append_assoc x (joined xs) (joined ys))

two_writes :
    (header payload : List ℕ) (d : Disk)
    → IsAppending d
    → IsAppending (write_all payload (write_all header d))
      × (contents (write_all payload (write_all header d)) ≡ contents d ++ (header ++ payload))
two_writes header payload d h =
    let (there, first) = write_all-IsAppending header d h in
    let (end, second) = write_all-IsAppending payload (write_all header d) there in
    (end, second ∙ ap (λ t. t ++ payload) first ∙ append_assoc (contents d) header payload)

tail_empty :
    (ws : List (List ℕ)) (xs ys : List ℕ)
    → ws ≡ []
    → (xs ++ ys) ++ joined ws ≡ (xs ++ joined ws) ++ ys
unfolding joined
tail_empty ws xs ys e =
    ap (λ t. (xs ++ ys) ++ joined t) e
    ∙ append-nil (xs ++ ys)
    ∙ sym (ap (λ t. (xs ++ joined t) ++ ys) e ∙ ap (λ t. t ++ ys) (append-nil xs))

-- A record at the end of the queue.
abbrev queued : List ℕ → Journal → Journal
queued bytes j = record j { pending_writes = j.pending_writes ++ (bytes ∷ []) }

queued-IsReady :
    (n : ℕ) (bytes : List ℕ) (j : Journal)
    → j.mode ≡ group_commit n
    → IsReady j
    → IsReady (queued bytes j) × (logged (queued bytes j) ≡ logged j ++ bytes)
unfolding IsReady logged joined QueueFits
queued-IsReady n bytes j e h =
    let fits : QueueFits j.mode (j.pending_writes ++ (bytes ∷ [])) =
      subst (λ m. QueueFits m (j.pending_writes ++ (bytes ∷ []))) (sym e) tt in
    (
      (h.0, fits),
      ap (λ t. contents j.disk ++ t)
            (joined-append j.pending_writes (bytes ∷ [])
              ∙ ap (λ t. joined j.pending_writes ++ t) (append-nil bytes))
          ∙ sym (append_assoc (contents j.disk) (joined j.pending_writes) bytes),
    )

pub write_record-IsReady :
    (m : DurabilityMode) (header payload : List ℕ) (j : Journal)
    → j.mode ≡ m
    → IsReady j
    → IsReady (write_record m header payload j)
      × (logged (write_record m header payload j) ≡ logged j ++ (header ++ payload))
unfolding write_record IsReady logged QueueFits
write_record-IsReady immediate header payload j e h =
    let (there, same) = two_writes header payload j.disk h.0 in
    let nothing : j.pending_writes ≡ [] = subst (λ m. QueueFits m j.pending_writes) e h.1 in
    let after = write_all payload (write_all header j.disk) in
    (
      ((flush_buffer-IsAppending after there).0, h.1),
      ap (λ t. t ++ joined j.pending_writes) (flushed_contents after there ∙ same)
          ∙ tail_empty j.pending_writes (contents j.disk) (header ++ payload) nothing,
    )
write_record-IsReady (group_commit n) header payload j e h =
    let q = queued (header ++ payload) j in
    let (ready, grown) = queued-IsReady n (header ++ payload) j e h in
    elim (Bool-cases (leb n (length q.pending_writes))) [
      | inl p ↦
          (let (flushed, kept, none_left) = flush_pending-IsReady q ready in
            rw (write_record, p) (flushed, kept ∙ grown))
      | inr p ↦ rw (write_record, p) (ready, grown)
    ]
write_record-IsReady relaxed header payload j e h =
    let (there, same) = two_writes header payload j.disk h.0 in
    let nothing : j.pending_writes ≡ [] = subst (λ m. QueueFits m j.pending_writes) e h.1 in
    (
      (there, h.1),
      ap (λ t. t ++ joined j.pending_writes) same
          ∙ tail_empty j.pending_writes (contents j.disk) (header ++ payload) nothing,
    )
