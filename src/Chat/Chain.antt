-- ===== src/Chat/Chain.antt =====
-- The prompts of a chat over the runs that continue as new.
use samples_python.Base.{
  drop, ℕ, zero, suc, List, [], ◌∷◌, ◌++◌, ◌≡◌, refl, sym, ◌∙◌, ap, subst, length, take,
}
use mathlib.Core.List.{append-nil, append_assoc}
use mathlib.Core.List.{Perm}
use mathlib.Core.List.Perm
use samples_python.Base.Perms.{append_left_comm}
use samples_python.Base.Text.{Text}
use samples_python.Chat.{
  init, BedrockParams, completed, continued_as_new, EntityBedrockWorkflow, run, Event, Signal,
  run_events,
}
use samples_python.Chat.Queue.{
  prompts, accepted, accepted_early, asked, run_events-asked, run-asked,
}
use samples_python.Chat.Ended.{Ended, run_events-IsEnded, run-IsEnded}

-- One run of a chat: the prompts that it accepted before it began and those after, and how many
-- prompts its history holds.
pub record Round : Type 0 where
  pub early : List Text
  pub late : List Text
  pub told : ℕ

-- The prompts that are told, and those that are left, if each run queues what came early, what the
-- run before left and what came late, and tells the first of them.
unfoldable pub serve : (left : List Text) → List Round → List Text × List Text
serve left [] = ([], left)
serve left (r ∷ rs) =
    let queue = r.early ++ left ++ r.late in
    let rest = serve (drop r.told queue) rs in (take r.told queue ++ rest.0, rest.1)

-- The prompts that the runs accept.
abbrev pub arrivals : List Round → List Text
arrivals [] = []
arrivals (r ∷ rs) = (r.early ++ r.late) ++ arrivals rs

take-drop : (n : ℕ) (xs : List Text) → take n xs ++ drop n xs ≡ xs
take-drop zero xs = refl
take-drop (suc n) [] = refl
take-drop (suc n) (x ∷ xs) = ap (λ (l : List Text). x ∷ l) (take-drop n xs)

queue-Perm :
    (r : Round) (left : List Text) → Perm (r.early ++ left ++ r.late) (left ++ (r.early ++ r.late))
queue-Perm r left =
    subst (λ q. Perm q (left ++ (r.early ++ r.late))) (sym (append_assoc r.early left r.late))
      (append_left_comm r.early left r.late)

-- Nothing is lost and nothing comes twice.
serve-Perm :
    (left : List Text) (rs : List Round)
    → Perm ((serve left rs).0 ++ (serve left rs).1) (left ++ arrivals rs)
unfolding serve
serve-Perm left [] = subst (λ r. Perm left r) (sym (append-nil left)) (Perm.refl left)
serve-Perm left (r ∷ rs) =
    let queue = r.early ++ left ++ r.late in
    let told = take r.told queue in
    let rest = serve (drop r.told queue) rs in
    let later = Perm.append (Perm.refl told) (serve-Perm (drop r.told queue) rs) in
    let split : told ++ (drop r.told queue ++ arrivals rs) ≡ queue ++ arrivals rs =
      sym (append_assoc told (drop r.told queue) (arrivals rs))
      ∙ ap (λ (q : List Text). q ++ arrivals rs) (take-drop r.told queue) in
    let queued =
      subst (λ l. Perm (queue ++ arrivals rs) l)
        (append_assoc left (r.early ++ r.late) (arrivals rs))
        (Perm.append (queue-Perm r left) (Perm.refl (arrivals rs))) in
    subst (λ l. Perm l (left ++ arrivals (r ∷ rs))) (sym (append_assoc told rest.0 rest.1))
      (Perm.trans (subst (λ l. Perm (told ++ (rest.0 ++ rest.1)) l) split later) queued)

take-append : (xs ys : List Text) → take (length xs) (xs ++ ys) ≡ xs
take-append [] ys = refl
take-append (x ∷ xs) ys = ap (λ (l : List Text). x ∷ l) (take-append xs ys)

drop-append : (xs ys : List Text) → drop (length xs) (xs ++ ys) ≡ ys
drop-append [] ys = refl
drop-append (x ∷ xs) ys = drop-append xs ys

serve-round :
    (r : Round) (rs : List Round) (told rest left : List Text)
    → told ++ rest ≡ r.early ++ left ++ r.late
    → r.told ≡ length told
    → serve left (r ∷ rs) ≡ (told ++ (serve rest rs).0, (serve rest rs).1)
unfolding serve
serve-round r rs told rest left e n =
    let served : List Text → List Text → List Text × List Text =
      λ t q. (t ++ (serve q rs).0, (serve q rs).1) in
    let queue = r.early ++ left ++ r.late in
    let first : take r.told queue ≡ told =
      ap (λ k. take k queue) n ∙ ap (take (length told)) (sym e) ∙ take-append told rest in
    let after : drop r.told queue ≡ rest =
      ap (λ k. drop k queue) n ∙ ap (drop (length told)) (sym e) ∙ drop-append told rest in
    ap (λ t. served t (drop r.told queue)) first ∙ ap (served told) after

-- What a run told, by its history.
abbrev pub told_by : EntityBedrockWorkflow → List Text
told_by w = prompts w.conversation_history

abbrev pub round : BedrockParams → (early : List Signal) (es : List Event) → Round
round params early es = record {
  early = accepted_early init early;
  late = accepted (run params early) es;
  told = length (told_by (run_events (run params early) es));
}

-- A chat over runs that continue as new, with its rounds and the prompts that stand in the histories
-- of its runs, one after the other.
pub data Chain : BedrockParams → List Round → (told : List Text) → Type 0 where
  last :
      (params : BedrockParams) (early : List Signal) (es : List Event)
      → (run_events (run params early) es).phase ≡ completed
      → Chain params (round params early es ∷ []) (told_by (run_events (run params early) es))
  more :
      (params next : BedrockParams) (early : List Signal) (es : List Event)
      → (rs : List Round) (told : List Text)
      → (run_events (run params early) es).phase ≡ continued_as_new next
      → Chain next rs told
      → Chain params
          (round params early es ∷ rs)
          (told_by (run_events (run params early) es) ++ told)

asked-run :
    (params : BedrockParams) (early : List Signal) (es : List Event)
    → asked (run_events (run params early) es)
      ≡ accepted_early init early ++ params.prompt_queue ++ accepted (run params early) es
asked-run params early es =
    run_events-asked (run params early) es
    ∙ ap (λ (l : List Text). l ++ accepted (run params early) es) (run-asked params early)

Chain-serve :
    {params : BedrockParams} {rs : List Round} {told : List Text}
    → Chain params rs told
    → serve params.prompt_queue rs ≡ (told, [])
unfolding serve
Chain-serve (last params early es done) =
    let w = run_events (run params early) es in
    let left =
      subst (Ended w) done (run_events-IsEnded (run params early) es (run-IsEnded params early)) in
    serve-round (round params early es) [] (told_by w) [] params.prompt_queue
      (ap (λ (q : List Text). told_by w ++ q) (sym left.1) ∙ asked-run params early es) refl
    ∙ ap (λ (t : List Text). (t, [])) (append-nil (told_by w))
Chain-serve (more params next early es rs told continued chain) =
    let w = run_events (run params early) es in
    let left =
      subst (Ended w) continued
        (run_events-IsEnded (run params early) es (run-IsEnded params early)) in
    serve-round (round params early es) rs (told_by w) next.prompt_queue params.prompt_queue
      (ap (λ (q : List Text). told_by w ++ q) left ∙ asked-run params early es) refl
    ∙ ap (λ (s : List Text × List Text). (told_by w ++ s.0, s.1)) (Chain-serve chain)

-- When a chat has completed, after any number of runs that continued as new, the prompts of the
-- runs' histories, one after the other, are up to order those that it began with in its queue and
-- those that its runs accepted, each once. And they stand in the order in which a queue gives them:
-- at each run the prompts that it accepts before it begins go before what the run before left, and
-- those that it accepts later go behind; each run tells the first ones, and in the end none is left.
-- A run accepts a prompt that comes before it has ended and before its chat has been ended.
pub Chain-prompts :
    {params : BedrockParams} {rs : List Round} {told : List Text}
    → Chain params rs told
    → Perm told (params.prompt_queue ++ arrivals rs) × (serve params.prompt_queue rs ≡ (told, []))
Chain-prompts {params} {rs} {told} chain =
    let served = Chain-serve chain in
    (
      subst (λ t. Perm t (params.prompt_queue ++ arrivals rs))
          (ap (λ (s : List Text × List Text). s.0 ++ s.1) served ∙ append-nil told)
          (serve-Perm params.prompt_queue rs),
      served,
    )
