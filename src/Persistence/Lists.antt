-- ===== src/Persistence/Lists.antt =====
-- The lists of src/persistence/avs_persistence.c, of whatever their handler stores and restores.
use avs_commons.Persistence.{Context, store_vtable, restore_vtable, kept}
use avs_commons.Persistence
use avs_commons.Persistence.Collections.{custom_allocated_list}
use avs_commons.Persistence.Store.{persist_each, persist_list}
use avs_commons.Persistence.Restore.{restore_u32, restore_each, restore_list}
use avs_commons.Persistence.Codec.{
  Stored, Restored, IsHandler, appended_more, appended_stop, persist_u32-Writes,
}
use avs_commons.Persistence.Words.{u32-IsCodec}
use avs_commons.Numbers.ByteOrder.{big_endian}
use avs_commons.Stream.{VTable, Err, success, is_ok}
use avs_commons.Stream.Queue.{IsSource, IsSink}
use mathlib.Core.Bool.{false≢true}
use avs_commons.Common.{
  ℕ, Bool, true, Option, none, some, ◌≡◌, refl, sym, ap, ◌∙◌, ◌<◌, ◌+◌, ◌%◌, ◌==◌, List, [], ◌∷◌,
  ◌++◌, length, length-append, append-nil, append_assoc, Bool-cases, inl, inr, arith,
}

-- All elements are good; what they are stored as, one after another.
pub data All {A : Type 0} (good : A → Type 0) : List A → Type 0 where
  all_nil : All good []
  all_cons : (a : A) (rest : List A) → good a → All good rest → All good (a ∷ rest)

abbrev pub concat_map : {A : Type 0} → (A → List ℕ) → List A → List ℕ
concat_map encoding [] = []
concat_map encoding (a ∷ rest) = encoding a ++ concat_map encoding rest

abbrev pub list_encoding : {A : Type 0} → (A → List ℕ) → List A → List ℕ
list_encoding encoding l = big_endian 4 (length l) ++ concat_map encoding l

module _ {S A : Type 0} {Valid : S → Type 0} {content : S → List ℕ} {good : A → Type 0}
    {encoding : A → List ℕ} {h : Option Context → S → Option A → Option (Err × (Option A × S))}
    (handler : IsHandler Valid content none good encoding h) where
  persist_each-Stored :
      (s : S) (l : List A)
      → Valid s
      → All good l
      → Stored Valid content s l (concat_map encoding l) (persist_each (h (some store_vtable)) s l)
  unfolding persist_each
  persist_each-Stored s l k all_nil = record {
    err = success;
    count = 0;
    after = s;
    returns = refl;
    few = omega arith;
    appended = sym (append-nil (content s));
    complete = λ o. refl;
    after-Valid = k;
  }
  persist_each-Stored s l k (all_cons a rest g all) =
      let w = handler.stores s a k g in
      let front = encoding a in
      let others = concat_map encoding rest in
      elim (Bool-cases (is_ok w.err)) [
        | inl ok ↦
            let m = persist_each-Stored w.after rest w.after-Valid all in
            record {
              err = m.err;
              count = length front + m.count;
              after = m.after;
              returns = rw w.returns (rw ok (rw m.returns refl));
              few = omega (arith, m.few, length-append front others);
              appended =
                  appended_more (content s) (content w.after) (content m.after) front others w.count
                    m.count w.appended (w.complete ok) m.appended;
              complete = λ o. omega (arith, m.complete o, length-append front others);
              after-Valid = m.after-Valid;
            }
        | inr bad ↦ record {
          err = w.err;
          count = w.count;
          after = w.after;
          returns = rw w.returns (rw bad refl);
          few = omega (arith, w.few, length-append front others);
          appended =
              appended_stop (content s) (content w.after) front others w.count w.appended w.few;
          complete = λ o. absurd (false≢true (sym bad ∙ o));
          after-Valid = w.after-Valid;
        }
      ]

  -- With the elements `done` in the list already.
  restore_each-Restored :
      (s : S) (done l : List A) (rest : List ℕ)
      → Valid s
      → All good l
      → content s ≡ concat_map encoding l ++ rest
      → Restored Valid content
          (done ++ l)
          rest
          (restore_each (h (some restore_vtable)) (length l) s done)
  unfolding restore_each
  restore_each-Restored s done l rest k all_nil e = record {
    after = s;
    returns = ap (λ x. some (success, (x, s))) (sym (append-nil done));
    left = e;
    after-Valid = k;
  }
  restore_each-Restored s done l rest k (all_cons a others g all) e =
      let r =
        handler.restores s a (concat_map encoding others ++ rest) k g
          (e ∙ append_assoc (encoding a) (concat_map encoding others) rest) in
      let m = restore_each-Restored r.after (done ++ a ∷ []) others rest r.after-Valid all r.left in
      record {
        after = m.after;
        returns = rw r.returns (
            m.returns ∙ ap (λ x. some (success, (x, m.after))) (append_assoc done (a ∷ []) others));
        left = m.left;
        after-Valid = m.after-Valid;
      }

  module _ {v : VTable S} (source : IsSource v Valid content) (sink : IsSink v Valid content)
      (cleanup : Bool) where
    custom_list-Stored :
        (s : S) (l : List A)
        → Valid s
        → All good l × (length l < 4294967296)
        → Stored Valid content s
            (some l)
            (list_encoding encoding l)
            (custom_allocated_list v h cleanup (some store_vtable) s (some l))
    unfolding custom_allocated_list persist_list
    custom_list-Stored s l k (all, small) =
        let w = persist_u32-Writes sink s (length l) k small in
        let whole : length l % 4294967296 ≡ length l = omega (arith, small) in
        let same : (length l == length l) ≡ true = ground arith in
        let size = big_endian 4 (length l) in
        let others = concat_map encoding l in
        elim (Bool-cases (is_ok w.err)) [
          | inl ok ↦
              let m = persist_each-Stored w.after l w.after-Valid all in
              record {
                err = m.err;
                count = length size + m.count;
                after = m.after;
                returns = rw whole (rw same (rw w.writes (rw ok (rw m.returns refl))));
                few = omega (arith, m.few, length-append size others);
                appended =
                    appended_more (content s) (content w.after) (content m.after) size others
                      w.count m.count w.appended (w.complete ok) m.appended;
                complete = λ o. omega (arith, m.complete o, length-append size others);
                after-Valid = m.after-Valid;
              }
          | inr bad ↦ record {
            err = w.err;
            count = w.count;
            after = w.after;
            returns = rw whole (rw same (rw w.writes (rw bad refl)));
            few = omega (arith, w.few, length-append size others);
            appended =
                appended_stop (content s) (content w.after) size others w.count w.appended w.few;
            complete = λ o. absurd (false≢true (sym bad ∙ o));
            after-Valid = w.after-Valid;
          }
        ]

    custom_list-Restored :
        (s : S) (l : List A) (rest : List ℕ)
        → Valid s
        → All good l × (length l < 4294967296)
        → content s ≡ list_encoding encoding l ++ rest
        → Restored Valid content
            (some l)
            rest
            (custom_allocated_list v h cleanup (some restore_vtable) s (some []))
    unfolding custom_allocated_list restore_list Persistence.u32
    custom_list-Restored s l rest k (all, small) e =
        let r =
          (u32-IsCodec source sink 0).restores s (length l) (concat_map encoding l ++ rest) k small
            (e ∙ append_assoc (big_endian 4 (length l)) (concat_map encoding l) rest) in
        let size : restore_u32 v s 0 ≡ some (success, (length l, r.after)) = r.returns in
        let m = restore_each-Restored r.after [] l rest r.after-Valid all r.left in
        record {
          after = m.after;
          returns = rw size (rw m.returns refl);
          left = m.left;
          after-Valid = m.after-Valid;
        }

    -- A list whose elements a handler stores and restores is stored and restored: the handler that is made
    -- of avs_persistence_custom_allocated_list stores four bytes for the number of the elements and then
    -- each element, and from these, at the front of the stream, it restores the same list in place of an
    -- empty one, and takes no more bytes. A list of lists is one, by the same theorem.
    pub custom_allocated_list-IsHandler :
        IsHandler Valid content
          (some [])
          (λ l. All good l × (length l < 4294967296))
          (list_encoding encoding)
          (custom_allocated_list v h cleanup)
    custom_allocated_list-IsHandler = record {
      stores = custom_list-Stored;
      restores = custom_list-Restored;
    }
