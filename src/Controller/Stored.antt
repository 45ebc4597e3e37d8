-- ===== src/Controller/Stored.antt =====
-- The writes of the checkpoint reconciler.
use mathlib.Core.List.{append-nil, append_assoc}
use pp_vpa.Prelude.{
  ◌≡◌, ◌≢◌, true, refl, sym, ap, ◌∙◌, false, Option, none, some, List, [], ◌∷◌, String, Outcome, ok,
  err, panic, Bool-cases, Outcome-cases, inl, inr, ◌++◌, ◌⊎◌,
}
use pp_vpa.Float.{Float}
use pp_vpa.Clock.{Time}
use pp_vpa.Histogram.Codec.{Bytes, Codec, Checkpoint}
use pp_vpa.Kube.{ApiError, is_not_found, is_already_exists}
use pp_vpa.Api.{Ppvpa, Prr, PpvpaCheckpoint}
use pp_vpa.Cluster.{
  Write, create_checkpoint, patch_checkpoint_status, Client, Session, Call, answer, done, handled,
  continue_with, ◌>>=◌,
}
use pp_vpa.Recommender.Checkpoint.{WorkloadCheckpoint, encode_workload}
use pp_vpa.Recommender.Aggregate.{WorkloadHistograms, aggregate}
use pp_vpa.Controller.Prrs.{owned_prrs}
use pp_vpa.Controller.{after_seconds, is_deleted}
use pp_vpa.Controller.Checkpointing.{
  checkpoint_name, new_checkpoint, with_payload, payload_of, created_or_there, finish, store,
  checkpoint_live, reconcile_checkpoint,
}

module _ {F W Q : Type 0} ⦃float : Float F⦄ (codec : Codec (Checkpoint F))
    (outer : Codec WorkloadCheckpoint) (client : Client W Q) where
  -- One patch, of the object that the cluster `v` has under the checkpoint's name, or nothing where
  -- the cluster answers with none.
  abbrev pub Patched : W → Time → Ppvpa Q → Bytes → List (Write Q) → Type 0
  Patched v now p enc ws =
      let found = client.get_checkpoint v p.meta.namespace (checkpoint_name p) in
      ((cp : PpvpaCheckpoint) × (found ≡ ok cp)
        × (ws ≡ patch_checkpoint_status (with_payload cp enc now) cp ∷ []))
      ⊎ (((cp : PpvpaCheckpoint) → found ≢ ok cp) × (ws ≡ []))

  -- The creation, and after it the patch, in the cluster that the creation leaves; no patch where
  -- the creation fails otherwise than by an object that is there.
  abbrev pub Created : W → Time → Ppvpa Q → Bytes → List (Write Q) → Type 0
  Created v now p enc ws =
      let (v', e) = client.write v (create_checkpoint (new_checkpoint p)) in
      (vs : List (Write Q)) × (ws ≡ create_checkpoint (new_checkpoint p) ∷ vs)
      × (((e ≡ none) × Patched v' now p enc vs)
          ⊎ ((x : ApiError) × (e ≡ some x) × (is_already_exists x ≡ true) × Patched v' now p enc vs)
          ⊎ ((x : ApiError) × (e ≡ some x) × (is_already_exists x ≡ false) × (vs ≡ [])))

  -- The encoded aggregate of the PRRs that the cluster `v` lists and that the PP-VPA owns.
  abbrev pub IsPayload : W → Time → Ppvpa Q → Bytes → Type 0
  IsPayload v encoded_at p enc =
      (prrs : List (Prr Q)) × (wh : WorkloadHistograms F) × (client.list_prrs v p.meta.namespace
        ≡ ok prrs)
      × (aggregate codec (owned_prrs p.meta.uid prrs) ≡ ok wh)
      × (encode_workload codec outer wh encoded_at ≡ ok enc)

  -- The writes for a PP-VPA: of its payload, or none where there is no payload.
  abbrev pub Stored : W → Time → Time → Ppvpa Q → List (Write Q) → Type 0
  Stored v encoded_at now p ws =
      ((enc : Bytes) × IsPayload v encoded_at p enc × Created v now p enc ws)
      ⊎ (((enc : Bytes) → ¬ IsPayload v encoded_at p enc) × (ws ≡ []))

  -- What a call adds to the log satisfies `P`, which may speak of the cluster at its start.
  abbrev Adds : {A : Type 0} → (W → List (Write Q) → Type 0) → Call W Q A → Type 0
  Adds P m =
      (s : Session W Q) → (ws : List (Write Q)) × ((m s).0.issued ≡ s.issued ++ ws) × P s.world ws

  -- A last answer is no write.
  answered :
      {A : Type 0} (a : A) (r : Outcome ApiError (Unit {0})) (t : Session W Q)
      → (continue_with r (λ u. done a) t).0 ≡ t
  answered a (ok u) t = refl
  answered a (err e) t = refl
  answered a panic t = refl

  finish-Patched :
      (now : Time) (p : Ppvpa Q) (enc : Bytes)
      → Adds (λ v. Patched v now p enc) (finish codec outer client now p enc)
  unfolding finish
  finish-Patched now p enc s =
      elim (Outcome-cases (client.get_checkpoint s.world p.meta.namespace (checkpoint_name p))) [
        | inl (cp, e) ↦ rw e (
            let w = patch_checkpoint_status (with_payload cp enc now) cp in
            (w ∷ [], ap (λ t. t.issued) (answered (after_seconds 300) _ _), inl (cp, refl, refl)))
        | inr (inl (x, e)) ↦ rw e (([], sym (append-nil s.issued), inr (λ cp h. cc, refl)))
        | inr (inr e) ↦ rw e (([], sym (append-nil s.issued), inr (λ cp h. cc, refl)))
      ]

  -- The error of a write is handled, and the write cannot panic.
  attempted :
      {A : Type 0} (f : Outcome ApiError (Unit {0}) → Call W Q A) (e : Option ApiError)
      (t : Session W Q)
      → continue_with (handled (answer e)) f t ≡ f (answer e) t
  attempted f none t = refl
  attempted f (some x) t = refl

  -- What follows the creation, by its answer.
  created_or_there-Patched :
      (now : Time) (p : Ppvpa Q) (enc : Bytes) (e : Option ApiError)
      → Adds
          (λ v vs.
            ((e ≡ none) × Patched v now p enc vs)
            ⊎ ((x : ApiError) × (e ≡ some x)
                × (is_already_exists x ≡ true)
                × Patched v now p enc vs)
            ⊎ ((x : ApiError) × (e ≡ some x) × (is_already_exists x ≡ false) × (vs ≡ [])))
          (λ t.
            (created_or_there codec outer client (answer e)
                >>= (λ u. finish codec outer client now p enc))
              t)
  created_or_there-Patched now p enc none t =
      let (vs, q, h) = finish-Patched now p enc t in (vs, q, inl (refl, h))
  created_or_there-Patched now p enc (some x) t = elim (Bool-cases (is_already_exists x)) [
    | inl k ↦ let (vs, q, h) = finish-Patched now p enc t in rw k (vs, q, inr (inl (x, refl, k, h)))
    | inr k ↦ rw k (([], sym (append-nil t.issued), inr (inr (x, refl, k, refl))))
  ]

  store-Created :
      (now : Time) (p : Ppvpa Q) (enc : Bytes)
      → Adds (λ v. Created v now p enc) (store codec outer client now p enc)
  unfolding store
  store-Created now p enc s =
      let w = create_checkpoint (new_checkpoint p) in
      let (world, e) = client.write s.world w in
      let t : Session W Q = record { world = world; issued = s.issued ++ w ∷ [] } in
      let (vs, q, h) = created_or_there-Patched now p enc e t in
      (
        w ∷ vs,
        ap (λ r. r.0.issued)
              (attempted
                (λ r.
                  created_or_there codec outer client r
                  >>= (λ u. finish codec outer client now p enc))
                e t)
            ∙ q
            ∙ append_assoc s.issued (w ∷ []) vs,
        (vs, refl, h),
      )

  module _ (encoded_at now : Time) (p : Ppvpa Q) (s : Session W Q) where
    -- What checkpoint_live adds.
    abbrev Result : Type 0
    Result =
        (ws : List (Write Q)) × ((checkpoint_live codec outer client encoded_at now p s).0.issued
          ≡ s.issued ++ ws)
        × Stored s.world encoded_at now p ws

    idle :
        (checkpoint_live codec outer client encoded_at now p s).0 ≡ s
        → ((enc : Bytes) → ¬ IsPayload s.world encoded_at p enc)
        → Result
    idle e h = ([], ap (λ t. t.issued) e ∙ sym (append-nil s.issued), inr (h, refl))

    written :
        (enc : Bytes)
        → checkpoint_live codec outer client encoded_at now p s
          ≡ store codec outer client now p enc s
        → IsPayload s.world encoded_at p enc
        → Result
    written enc e h =
        let (ws, q, c) = store-Created now p enc s in
        (ws, ap (λ r. r.0.issued) e ∙ q, inl (enc, h, c))

    checkpoint_live-Stored : Result
    unfolding checkpoint_live payload_of
    checkpoint_live-Stored = elim (Outcome-cases (client.list_prrs s.world p.meta.namespace)) [
      | inr (inl (x, e)) ↦ idle (rw e refl) (λ enc (ps, w, f, g, h). cc (e, f))
      | inr (inr e) ↦ idle (rw e refl) (λ enc (ps, w, f, g, h). cc (e, f))
      | inl (prrs, e) ↦ elim (Outcome-cases (aggregate codec (owned_prrs p.meta.uid prrs))) [
        | inr (inl (x, f)) ↦ idle (rw (e, f) refl) (λ enc (ps, w, k, g, h). cc (e, f, k, g))
        | inr (inr f) ↦ idle (rw (e, f) refl) (λ enc (ps, w, k, g, h). cc (e, f, k, g))
        | inl (wh, f) ↦ elim (Outcome-cases (encode_workload codec outer wh encoded_at)) [
          | inr (inl (x, g)) ↦
              idle (rw (e, f, g) refl) (λ enc (ps, w, k, l, h). cc (e, f, g, k, l, h))
          | inr (inr g) ↦ idle (rw (e, f, g) refl) (λ enc (ps, w, k, l, h). cc (e, f, g, k, l, h))
          | inl (enc, g) ↦ written enc (rw (e, f, g) refl) (prrs, wh, e, f, g)
        ]
      ]
    ]

  -- One reconcile of a checkpoint writes nothing where the client returns no PP-VPA, or one that is
  -- being deleted. For any other it writes nothing where there is no payload: the encoding of the
  -- aggregate of the PRRs that the client lists and the PP-VPA owns. Where there is one, it issues
  -- the creation of the checkpoint object; and then, unless the creation fails otherwise than by an
  -- object that is there, one status patch of the object that the client returns after the creation,
  -- with that payload and the time, or nothing where the client returns none.
  pub reconcile_checkpoint-Stored :
      (encoded_at now : Time) (namespace name : String) (s : Session W Q)
      → let found = client.get_ppvpa s.world namespace name in
        (ws : List (Write Q)) × ((reconcile_checkpoint codec outer client encoded_at now namespace
            name s).0.issued
          ≡ s.issued ++ ws)
        × ((((p : Ppvpa Q) → found ≢ ok p) × (ws ≡ []))
            ⊎ ((p : Ppvpa Q) × (found ≡ ok p) × (is_deleted p ≡ true) × (ws ≡ []))
            ⊎ ((p : Ppvpa Q) × (found ≡ ok p)
                × (is_deleted p ≡ false)
                × Stored s.world encoded_at now p ws))
  unfolding reconcile_checkpoint
  reconcile_checkpoint-Stored encoded_at now namespace name s =
      elim (Outcome-cases (client.get_ppvpa s.world namespace name)) [
        | inl (p, e) ↦ elim (Bool-cases (is_deleted p)) [
          | inl d ↦ rw (e, d) (([], sym (append-nil s.issued), inr (inl (p, refl, d, refl))))
          | inr d ↦
              let (ws, q, h) = checkpoint_live-Stored encoded_at now p s in
              rw (e, d) ((ws, q, inr (inr (p, refl, d, h))))
        ]
        | inr (inl (x, e)) ↦ elim (Bool-cases (is_not_found x)) [
          | inl n ↦ rw (e, n) (([], sym (append-nil s.issued), inl (λ p h. cc, refl)))
          | inr n ↦ rw (e, n) (([], sym (append-nil s.issued), inl (λ p h. cc, refl)))
        ]
        | inr (inr e) ↦ rw e (([], sym (append-nil s.issued), inl (λ p h. cc, refl)))
      ]
