-- ===== src/Server/Sweep.antt =====
-- A pass over the connections against its specification: every connection is visited once, from the
-- last to the first, whatever the removals by swap do to the table meanwhile.
use mathlib.Core.List.{
  append_assoc, append-nil, reverse, reverse-cons, reverse-reverse, perm_middle,
}
use mathlib.Core.List.Perm
use redp2p_c.Prelude.{
  ℕ, suc, ◌≡◌, refl, sym, ap, ◌∙◌, subst, List, [], ◌∷◌, ◌++◌, Option, none, some, arith, length,
  length-append, get_elem?, set, Perm,
}
use redp2p_c.Context.{Context}
use redp2p_c.Pending.Swap.{rotate_last, rotate_last-perm, swap_remove_lem, get_elem?-append}
use redp2p_c.Server.{
  Conn, Server, Answer, Io, Visit, Pass, visit_conn, put_back, index_conn_remove, process_loop,
  process_connections,
}

abbrev pub kept_list : Option Conn → List Conn
kept_list none = []
kept_list (some conn) = conn ∷ []

-- The connections in the order of the visits; the context passes from one to the next.
unfoldable pub visit_all : Io → Context → List Conn → Pass
visit_all io c [] = record { context = c; conns = []; answers = [] }
visit_all io c (conn ∷ conns) =
    let v = visit_conn io c conn in
    let p = visit_all io v.context conns in
    record {
      context = p.context;
      conns = kept_list v.kept ++ p.conns;
      answers = v.answers ++ p.answers;
    }

module _ {ℓ} {A : Type ℓ} where
  pub length-reverse_lem : (xs : List A) → length (reverse xs) ≡ length xs
  length-reverse_lem [] = refl
  length-reverse_lem (x ∷ xs) =
      rw (reverse-cons x xs)
        (omega (arith, length-append (reverse xs) (x ∷ []), length-reverse_lem xs))

  set-append :
      (done : List A) (x y : A) (rest : List A)
      → set (done ++ x ∷ rest) (length done) y ≡ done ++ y ∷ rest
  set-append [] x y rest = refl
  set-append (d ∷ done) x y rest = ap (◌∷◌ d) (set-append done x y rest)

-- The table after one visit, and what the visit leaves behind the connections still to come.
behind : List Conn → Option Conn → List Conn
behind later none = rotate_last later
behind later (some conn) = conn ∷ later

put_back_lem :
    (done later : List Conn) (x : Conn) (r : Option Conn)
    → put_back (done ++ x ∷ later) (length done) r ≡ done ++ behind later r
unfolding behind index_conn_remove put_back
put_back_lem done later x none = swap_remove_lem done x later
put_back_lem done later x (some conn) = set-append done x conn later

behind-perm :
    (kept later : List Conn) (r : Option Conn)
    → Perm (kept ++ behind later r) ((kept_list r ++ kept) ++ later)
unfolding behind
behind-perm kept later none = Perm.append_left kept (rotate_last-perm later)
behind-perm kept later (some conn) = perm_middle kept later

-- One round of the loop.
process_loop-some :
    (io : Io) (i : ℕ) (c : Context) (conns : List Conn) (x : Conn) (answers : List (ℕ × Answer))
    → get_elem? conns i ≡ some x
    → process_loop io (suc i) c conns answers
      ≡ process_loop io i
          (visit_conn io c x).context
          (put_back conns i (visit_conn io c x).kept)
          (answers ++ (visit_conn io c x).answers)
unfolding process_loop
process_loop-some io i c conns x answers e = rw (e, process_loop) refl

-- A pass that has the outcome of the visits `q`, behind earlier answers and before later connections.
abbrev Matches : Pass → Pass → List (ℕ × Answer) → List Conn → Type 0
Matches p q answers later =
    (p.context ≡ q.context) × (p.answers ≡ answers ++ q.answers) × Perm p.conns (q.conns ++ later)

process_loop-Matches :
    (io : Io) (todo later : List Conn) (c : Context) (answers : List (ℕ × Answer))
    → Matches
        (process_loop io (length todo) c (reverse todo ++ later) answers)
        (visit_all io c todo)
        answers
        later
unfolding process_loop visit_all
process_loop-Matches io [] later c answers = (refl, sym (append-nil answers), Perm.refl later)
process_loop-Matches io (x ∷ todo) later c answers =
    let v : Visit = visit_conn io c x in
    let q : Pass = visit_all io v.context todo in
    let split : reverse (x ∷ todo) ++ later ≡ reverse todo ++ x ∷ later =
      ap (λ xs. xs ++ later) (reverse-cons x todo) ∙ append_assoc (reverse todo) (x ∷ []) later in
    let at : get_elem? (reverse todo ++ x ∷ later) (length todo) ≡ some x =
      subst (λ n. get_elem? (reverse todo ++ x ∷ later) n ≡ some x) (length-reverse_lem todo)
        (get_elem?-append (reverse todo) x later) in
    let put : put_back (reverse todo ++ x ∷ later) (length todo) v.kept
        ≡ reverse todo ++ behind later v.kept =
      subst
        (λ n. put_back (reverse todo ++ x ∷ later) n v.kept ≡ reverse todo ++ behind later v.kept)
        (length-reverse_lem todo) (put_back_lem (reverse todo) later x v.kept) in
    let (same, answered, left) =
      process_loop-Matches io todo (behind later v.kept) v.context (answers ++ v.answers) in
    let round : process_loop io (suc (length todo)) c (reverse (x ∷ todo) ++ later) answers
        ≡ process_loop io (length todo) v.context (reverse todo ++ behind later v.kept)
            (answers ++ v.answers) =
      ap (λ xs. process_loop io (suc (length todo)) c xs answers) split
      ∙ process_loop-some io (length todo) c (reverse todo ++ x ∷ later) x answers at
      ∙ ap (λ xs. process_loop io (length todo) v.context xs (answers ++ v.answers)) put in
    subst (λ p. Matches p (visit_all io c (x ∷ todo)) answers later) (sym round)
      (
        same,
        answered ∙ append_assoc answers v.answers q.answers,
        Perm.trans left (behind-perm q.conns later v.kept),
      )

-- A pass over the table visits every connection once, from the last to the first: the index and the
-- answers afterwards are those of the visits in that order, and the connections that are left are
-- those that the visits keep, up to order.
pub process_connections-visit_all :
    (io : Io) (s : Server)
    → ((process_connections io s).0.context ≡ (visit_all io s.context (reverse s.conns)).context)
      × ((process_connections io s).1 ≡ (visit_all io s.context (reverse s.conns)).answers)
      × Perm (process_connections io s).0.conns (visit_all io s.context (reverse s.conns)).conns
unfolding process_connections
process_connections-visit_all io s =
    let whole : reverse (reverse s.conns) ++ [] ≡ s.conns =
      append-nil (reverse (reverse s.conns)) ∙ reverse-reverse s.conns in
    let (same, answered, left) =
      subst
        (λ n.
          Matches (process_loop io n s.context s.conns [])
            (visit_all io s.context (reverse s.conns)) [] [])
        (length-reverse_lem s.conns)
        (subst
          (λ xs.
            Matches (process_loop io (length (reverse s.conns)) s.context xs [])
              (visit_all io s.context (reverse s.conns)) [] [])
          whole (process_loop-Matches io (reverse s.conns) [] s.context [])) in
    (same, answered, rw (append-nil (visit_all io s.context (reverse s.conns)).conns) at left)
