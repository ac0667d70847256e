-- ===== src/Statements/Follows.antt =====
-- What a part of the code generation of compiler/codegen/ does to one name: a relation on the states
-- before and after, which parts in sequence compose.
use tbol_toolchain.Base.{
  ℕ, ◌+◌, ◌≤◌, ◌<◌, ◌≡◌, refl, sym, ◌∙◌, Bool, true, false, not, ◌&&◌, ◌||◌, none, some, List, [],
  ◌∷◌, ◌++◌, length, length-append, arith, leb, inl, inr, Bool-cases,
}
use tbol_toolchain.Symtab.Names.{Name, same_name}
use tbol_toolchain.Symtab.{is_some}
use tbol_toolchain.Codegen.Labels.{
  Generator, LabelDef, max_labels, find_label, lookup_label, define_label, refers, same_scope,
  names_label,
}
use tbol_toolchain.Emit.{Buffer, emit_add_forward_ref, emit_get_offset}
use tbol_toolchain.Emit.Growth.{IsWellFormed}
use tbol_toolchain.RoundTrip.Define.{fix_refs-IsWellFormed}
use tbol_toolchain.Statements.Waiting.{
  waits, waiting, defined, find_label-same_name, waits-append, same_scope_refl, waits-fix_refs,
}

-- For the name: `target` is that the part jumps to it, `made` that the part defines it. The label
-- table has room if it is not full at the end.
pub record Follows (name : Name) (target made : Bool) (g g' : Generator) : Type 0 where
  pub fits : IsWellFormed g.buffer → IsWellFormed g'.buffer
  pub current : g'.current_proc_name ≡ g.current_proc_name
  pub longer : length g.labels ≤ length g'.labels
  pub kept : defined name g ≡ true → defined name g' ≡ true
  pub makes : length g'.labels < max_labels → made ≡ true → defined name g' ≡ true
  pub settled :
      (waiting name g && defined name g) ≡ false → (waiting name g' && defined name g') ≡ false
  pub owes :
      length g'.labels < max_labels → waiting name g' ≡ true → (waiting name g || target) ≡ true

module _ (name : Name) where
  pub Follows-refl : (g : Generator) → Follows name false false g g
  Follows-refl g = record {
    fits = λ wf. wf;
    current = refl;
    longer = omega arith;
    kept = λ d. d;
    makes = λ few m. absurd (cc);
    settled = λ s. s;
    owes = λ few w. rw w refl;
  }

  pub Follows-trans :
      {t t' m m' : Bool} (g h k : Generator)
      → Follows name t m g h
      → Follows name t' m' h k
      → Follows name (t || t') (m || m') g k
  Follows-trans {t} {t'} {m} {m'} g h k a b = record {
    fits = λ wf. b.fits (a.fits wf);
    current = b.current ∙ a.current;
    longer = omega (arith, a.longer, b.longer);
    kept = λ d. b.kept (a.kept d);
    makes = λ few e. makes_either few m refl (λ made. a.makes (omega (arith, b.longer)) made) e;
    settled = λ s. b.settled (a.settled s);
    owes = λ few w. ground (arith, b.owes few w, a.owes (omega (arith, b.longer)));
  }
    where
      makes_either :
          length k.labels < max_labels
          → (made : Bool) → m ≡ made
          → (m ≡ true → defined name h ≡ true)
          → (m || m') ≡ true
          → defined name k ≡ true
      makes_either few true e early any = b.kept (early e)
      makes_either few false e early any = b.makes few (rw e at any)

  pub Follows-weaken :
      {t t' m m' : Bool} (g h : Generator)
      → (t ≡ true → t' ≡ true)
      → (m' ≡ true → m ≡ true)
      → Follows name t m g h
      → Follows name t' m' g h
  Follows-weaken {t} {t'} {m} {m'} g h wt wm a = record {
    fits = a.fits;
    current = a.current;
    longer = a.longer;
    kept = a.kept;
    makes = λ few e. a.makes few (wm e);
    settled = a.settled;
    owes = λ few w. ground (arith, a.owes few w, wt);
  }

  -- Bytes that are appended or patched.
  pub bytes-Follows :
      (g : Generator) (buf : Buffer)
      → buf.forward_refs ≡ g.buffer.forward_refs
      → (IsWellFormed g.buffer → IsWellFormed buf)
      → Follows name false false g (record g { buffer = buf })
  unfolding waiting defined lookup_label
  bytes-Follows g buf same wf = record {
    fits = wf;
    current = refl;
    longer = omega arith;
    kept = λ d. d;
    makes = λ few m. absurd (cc);
    settled = λ s. rw same s;
    owes = λ few w. ground (arith, rw same at w);
  }

  waiting-add :
      (g : Generator) (patch : ℕ) (target : Name)
      → waiting name (record g {
        buffer = emit_add_forward_ref patch (some target) g.current_proc_name g.buffer;
      })
        ≡ (waiting name g || same_name target name)
  unfolding waiting refers names_label emit_add_forward_ref
  waiting-add g patch target =
      waits-append name g.current_proc_name g.buffer.forward_refs _
      ∙ rw (same_scope_refl g.current_proc_name) (ground arith)

  -- A forward reference to a label that is not defined.
  pub waits-Follows :
      (g : Generator) (patch : ℕ) (target : Name)
      → lookup_label target g ≡ none
      → Follows name (same_name target name) false g (record g {
        buffer = emit_add_forward_ref patch (some target) g.current_proc_name g.buffer;
      })
  unfolding defined lookup_label
  waits-Follows g patch target missing = record {
    fits = λ wf. unfold emit_add_forward_ref in record { positive = wf.positive; fits = wf.fits };
    current = refl;
    longer = omega arith;
    kept = λ d. d;
    makes = λ few m. absurd (cc);
    settled = λ s. rw (waiting-add g patch target) (elim (Bool-cases (same_name target name)) [
      | inl same ↦ rw (sym (find_label-same_name target name g.labels same), missing) (ground arith)
      | inr other ↦ rw other (ground arith)
    ]);
    owes = λ few w. rw (waiting-add g patch target) at w;
  }

  -- A forward reference to a procedure, which is none of a procedure's own.
  pub call-Follows :
      (g : Generator) (patch : ℕ) (callee proc : Name)
      → g.current_proc_name ≡ some proc
      → Follows name false false g
          (record g { buffer = emit_add_forward_ref patch (some callee) none g.buffer })
  unfolding waiting refers same_scope emit_add_forward_ref defined lookup_label
  call-Follows g patch callee proc inside =
      let same : waits name g.current_proc_name (
            g.buffer.forward_refs
            ++ (record { patch_offset = patch; label = some callee; proc = none } ∷ []))
          ≡ waits name g.current_proc_name g.buffer.forward_refs =
        waits-append name g.current_proc_name g.buffer.forward_refs _ ∙ rw inside (ground arith) in
      record {
        fits = λ wf. record { positive = wf.positive; fits = wf.fits };
        current = refl;
        longer = omega arith;
        kept = λ d. d;
        makes = λ few m. absurd (cc);
        settled = λ s. rw same s;
        owes = λ few w. ground (arith, rw same at w);
      }

  find_label-append :
      (labels : List LabelDef) (l : LabelDef)
      → is_some (find_label name (labels ++ (l ∷ [])))
        ≡ (is_some (find_label name labels) || same_name l.name name)
  unfolding find_label
  find_label-append [] l = elim (Bool-cases (same_name l.name name)) [
    | inl e ↦ rw e refl
    | inr e ↦ rw e refl
  ]
  find_label-append (k ∷ labels) l = elim (Bool-cases (same_name k.name name)) [
    | inl e ↦ rw e refl
    | inr e ↦ rw e (find_label-append labels l)
  ]

  -- The three effects of `define_label`, which has room unless the table is full.
  define_label-room :
      (n : Name) (g : Generator)
      → length g.labels < max_labels
      → (waiting name (define_label n g) ≡ (waiting name g && not (same_name n name)))
        × (defined name (define_label n g) ≡ (defined name g || same_name n name))
        × (length (define_label n g).labels ≡ length g.labels + 1)
  unfolding define_label waiting defined lookup_label
  define_label-room n g room =
      let free : leb max_labels (length g.labels) ≡ false = ground arith in
      rw free (
        waits-fix_refs (emit_get_offset g.buffer) n name g.current_proc_name g.buffer.forward_refs
            g.buffer,
        find_label-append g.labels _,
        length-append g.labels _,
      )

  define_label-full :
      (n : Name) (g : Generator) → max_labels ≤ length g.labels → define_label n g ≡ g
  unfolding define_label
  define_label-full n g full =
      let full' : leb max_labels (length g.labels) ≡ true = ground arith in rw full' refl

  define_label-current :
      (n : Name) (g : Generator)
      → ((define_label n g).current_proc_name ≡ g.current_proc_name)
        × (IsWellFormed g.buffer → IsWellFormed (define_label n g).buffer)
  unfolding define_label
  define_label-current n g = elim (Bool-cases (leb max_labels (length g.labels))) [
    | inl full ↦ rw full (refl, λ wf. wf)
    | inr free ↦ rw free (
      refl,
      λ wf.
          let wf' =
            fix_refs-IsWellFormed (emit_get_offset g.buffer) n g.current_proc_name
              g.buffer.forward_refs g.buffer wf in
          record { positive = wf'.positive; fits = wf'.fits },
    )
  ]

  -- A label at the end of a part: what was waited for under its name is settled.
  pub label-Follows :
      {t m : Bool} (n : Name) (g h : Generator)
      → Follows name t m g h
      → Follows name (t && not (same_name n name)) (m || same_name n name) g (define_label n h)
  label-Follows {t} {m} n g h a = elim (Bool-cases (leb max_labels (length h.labels))) [
    | inl full ↦
        let same = define_label-full n h (ground arith) in
        rw same (record {
          fits = a.fits;
          current = a.current;
          longer = a.longer;
          kept = a.kept;
          makes = λ few e. absurd (ground arith);
          settled = a.settled;
          owes = λ few e. absurd (ground arith);
        })
    | inr free ↦
        let (w, d, len) = define_label-room n h (ground arith) in
        let (cur, wf) = define_label-current n h in
        record {
          fits = λ e. wf (a.fits e);
          current = cur ∙ a.current;
          longer = omega (arith, a.longer);
          kept = λ e. rw (d, a.kept e) refl;
          makes = λ few e. rw d (ground (arith, a.makes (omega arith)));
          settled = λ e. rw (w, d) (ground (arith, a.settled e));
          owes = λ few e. ground (arith, rw w at e, a.owes (omega arith));
        }
  ]

  pub define_label-longer :
      (n : Name) (g : Generator) → length g.labels ≤ length (define_label n g).labels
  define_label-longer n g = (label-Follows n g g (Follows-refl g)).longer
