-- ===== src/Queue/Done.antt =====
-- What is done and the file of it, in `updateDoneParams` of src/blocks/RunPotentialParamsQueue.cpp.
use structure_pipe.Base.{
  ◌≡◌, refl, sym, ap, ap₂, ◌∙◌, Option, none, some, List, [], ◌∷◌, ◌++◌, Text, arith, append_assoc,
  append-nil,
}
use structure_pipe.Queue.{
  Params, RunPotentialParamsQueue, write_params, write_all_params, update_done_params,
}

write_all_params-append :
    (xs ys : List Params) → write_all_params (xs ++ ys) ≡ write_all_params xs ++ write_all_params ys
unfolding write_all_params
write_all_params-append [] ys = refl
write_all_params-append (p ∷ xs) ys =
    ap (λ q. write_params p ++ q) (write_all_params-append xs ys)
    ∙ sym (append_assoc (write_params p) _ _)

-- What is done and not yet written, if the file of what is done exists.
abbrev pub NoneWaiting : Option Text → List Params → Type 0
NoneWaiting none done = Unit
NoneWaiting (some content) done = done ≡ []

-- The file of what is done and the parameters that wait for it, after more was done.
abbrev pub done_after : Option Text → List Params → List Params → Option Text × List Params
done_after none done more = (none, done ++ more)
done_after (some content) done more = (some (content ++ write_all_params more), [])

pub done_after-append :
    (file : Option Text) (done xs ys : List Params)
    → done_after (done_after file done xs).0 (done_after file done xs).1 ys
      ≡ done_after file done (xs ++ ys)
done_after-append none done xs ys = ap (λ q. (none, q)) (append_assoc done xs ys)
done_after-append (some content) done xs ys =
    ap (λ q. (some q, []))
      (append_assoc content _ _ ∙ ap (λ q. content ++ q) (sym (write_all_params-append xs ys)))

pub NoneWaiting-done_after :
    (file : Option Text) (done xs : List Params)
    → NoneWaiting (done_after file done xs).0 (done_after file done xs).1
NoneWaiting-done_after none done xs = tt
NoneWaiting-done_after (some content) done xs = refl

pub update_done_params-done_after :
    {S : Type 0} (b : RunPotentialParamsQueue S) (file : Option Text) (done xs : List Params)
    → b.done_file ≡ file
    → b.done_params ≡ done ++ xs
    → NoneWaiting file done
    → update_done_params b ≡ record b {
      done_file = (done_after file done xs).0;
      done_params = (done_after file done xs).1;
    }
unfolding update_done_params
update_done_params-done_after b none done xs e f h =
    rw (e, update_done_params) (ground (e, f, arith))
update_done_params-done_after b (some content) done xs e f h =
    rw (e, update_done_params) (ground (f, h, e, arith))

pub done_after-nil :
    (file : Option Text) (done : List Params)
    → NoneWaiting file done
    → (file, done) ≡ done_after file done []
unfolding write_all_params
done_after-nil none done h = ap (λ q. (none, q)) (sym (append-nil done))
done_after-nil (some content) done h = ap₂ (λ a b. (some a, b)) (sym (append-nil content)) h
