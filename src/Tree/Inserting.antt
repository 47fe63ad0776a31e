-- ===== src/Tree/Inserting.antt =====
-- Inserting a process below its parent, which is inserted first if it is not known.
use csci555_usc.Base.{
  ℕ, zero, suc, ◌+◌, ◌<◌, ◌≤◌, ◌≡◌, refl, sym, ap, ◌∙◌, ◌⊎◌, inl, inr, true, false, Bool-cases,
  Option-cases, Option, none, some, [], ◌==◌, ==→eq, eq→==, arith,
}
use csci555_usc.Pages.Table.{find}
use csci555_usc.Tree.{
  Node, Tree, done, ◌>>=◌, construct, attach, retrieve_by, insert_process, climbs,
}
use csci555_usc.Tree.Links.{IsTree}
use csci555_usc.Tree.Children.{Settles}
use csci555_usc.Tree.Adding.{Added, rank_with, add-IsTree}
use csci555_usc.Tree.Constructing.{Known, attach-Added, construct-Constructed}

-- What an insertion makes of a tree: a tree with the process, where all processes of before have the
-- parents that they had, and the others are no younger than the process.
pub record Inserted (height : ℕ → ℕ) (pid : ℕ) (t u : Tree) : Type 0 where
  pub is_tree : (rank : ℕ → ℕ) × (bound : ℕ) × IsTree rank bound u
  pub there : (n : Node) × (find pid u ≡ some n)
  pub kept :
      (x : ℕ) (o : Node)
      → find x t ≡ some o
      → (p : Node) × (find x u ≡ some p) × (p.parent ≡ o.parent)
  pub older :
      (x : ℕ) (p : Node)
      → find x u ≡ some p
      → ((o : Node) × (find x t ≡ some o)) ⊎ (height x ≤ height pid)

module _ (height : ℕ → ℕ) (rank : ℕ → ℕ) (bound pid : ℕ) (parent : Option ℕ) (t : Tree) where
  Added-Inserted :
      (u : Tree)
      → IsTree rank bound t
      → find pid t ≡ none
      → Known parent t
      → Added pid parent t u
      → Inserted height pid t u
  Added-Inserted u tree fresh known add = record {
    is_tree = (
      rank_with rank bound pid parent t u tree fresh known add,
      bound + 1,
      add-IsTree rank bound pid parent t u tree fresh known add,
    );
    there = (add.new.0, add.new.1);
    kept = λ x o e.
        let p = add.forth x o e in
        let b = add.back x p.0 (other x o e) p.1 in (p.0, p.1, cc (b.1, b.2, e));
    older = λ x p e. elim (Bool-cases (x == pid)) [
      | inl same ↦ inr (let is : x ≡ pid = ==→eq x pid same in omega (arith, ap height is))
      | inr apart ↦ let b = add.back x p apart e in inl (b.0, b.1)
    ];
  }
    where
      other : (x : ℕ) (o : Node) → find x t ≡ some o → x == pid ≡ false
      other x o e = elim (Bool-cases (x == pid)) [
        | inl same ↦ cc (ap (λ i. find i t) (==→eq x pid same), fresh, e)
        | inr apart ↦ apart
      ]

known-Inserted :
    (height rank : ℕ → ℕ) (bound pid : ℕ) (t : Tree) (n : Node)
    → IsTree rank bound t
    → find pid t ≡ some n
    → Inserted height pid t t
known-Inserted height rank bound pid t n tree e = record {
  is_tree = (rank, bound, tree);
  there = (n, e);
  kept = λ x o f. (o, f, refl);
  older = λ x p f. inl (p, f);
}

climbs_facts :
    (self pid : ℕ) (parent : Option ℕ) (n : Node)
    → climbs self pid parent n ≡ true
    → (parent ≡ none) × (n.ppid == 0 ≡ false)
unfolding climbs
climbs_facts self pid none n h = (refl, ground (arith, h))
climbs_facts self pid (some q) n h = ground (arith, h)

none-some : {q : ℕ} → none ≡ some q → ⊥
none-some e = cc

none-Known : (t : Tree) → Known none t
none-Known t q e = absurd (none-some e)

-- `stat` says who is whose parent, and `height` grows from parents to children.
module _ (stat : ℕ → Option ℕ) (self : ℕ) (height : ℕ → ℕ)
    (grows : (pid ppid : ℕ)
      → stat pid ≡ some ppid
      → ppid == 0 ≡ false
      → height ppid < height pid) where
  -- The process below its parent, once the parent is in the tree.
  after_parent :
      (pid ppid : ℕ) (n : Node) (t u : Tree)
      → find pid t ≡ none
      → n.children ≡ []
      → height ppid < height pid
      → Inserted height ppid t u
      → (v : Tree) × (attach pid n (some ppid) u ≡ done v) × Inserted height pid t v
  after_parent pid ppid n t u fresh c up first =
      let add = attach-Added pid (some ppid) n u u absent known (inl refl) (λ h. cc) c in
      let last =
        Added-Inserted height first.is_tree.0 first.is_tree.1 pid (some ppid) u add.0
          first.is_tree.2 absent known add.2 in
      (
        add.0,
        add.1,
        record {
          is_tree = last.is_tree;
          there = last.there;
          kept = λ x o e.
              let m = first.kept x o e in let p = last.kept x m.0 m.1 in (p.0, p.1, p.2 ∙ m.2);
          older = λ x p e. elim (last.older x p e) [
            | inr le ↦ inr le
            | inl (m, f) ↦ elim (first.older x m f) [
              | inl old ↦ inl old
              | inr le ↦ inr (omega (arith, up))
            ]
          ];
        },
      )
    where
      absent : find pid u ≡ none
      absent = elim (Option-cases (find pid u)) [
        | inl e ↦ e
        | inr (m, e) ↦ elim (first.older pid m e) [
          | inl (o, f) ↦ cc (f, fresh)
          | inr le ↦ absurd (omega (arith, up))
        ]
      ]

      known : Known (some ppid) u
      known q e =
          let is : ppid ≡ q = cc e in (first.there.0, ap (λ i. find i u) (sym is) ∙ first.there.1)

  insert_by_height :
      (k pid : ℕ) (parent : Option ℕ) (rank : ℕ → ℕ) (bound : ℕ) (t : Tree)
      → IsTree rank bound t
      → Known parent t
      → height pid < k
      → Settles
          (λ fuel. insert_process stat self fuel pid parent t)
          (λ fuel. height pid < fuel)
          (Inserted height pid t)
  unfolding insert_process retrieve_by
  insert_by_height zero pid parent rank bound t tree known h = absurd (omega arith)
  insert_by_height (suc k) pid parent rank bound t tree known h = elim (Option-cases (find pid t)) [
    | inl fresh ↦
        let c = construct-Constructed stat pid parent t known in
        elim (Bool-cases (climbs self pid parent c.0.0)) [
          | inr stays ↦
              let add =
                attach-Added pid parent c.0.0 t c.0.1 fresh known c.2.before
                  (λ e. c.2.parent_given ∙ e) c.2.no_children in
              (
                add.0,
                λ fuel enough. direct fuel enough fresh c.0 add.0 c.1 stays add.1,
                Added-Inserted height rank bound pid parent t add.0 tree fresh known add.2,
              )
          | inl climbing ↦
              let facts = climbs_facts self pid parent c.0.0 climbing in
              let higher = up c.0.0 facts.1 c.2.read in
              let below_k : height c.0.0.ppid < k = omega (arith, higher) in
              let first =
                by_parent c.0.0.ppid (Option-cases (find c.0.0.ppid t))
                  (insert_by_height k c.0.0.ppid none rank bound t tree (none-Known t)) below_k in
              let last =
                after_parent pid c.0.0.ppid c.0.0 t first.0 fresh c.2.no_children higher first.2 in
              (
                last.0,
                λ fuel enough.
                    climbed fuel enough fresh c.0 first.0 last.0 c.1 climbing (c.2.same facts.0)
                      (λ f h'. first.1 f (omega (arith, higher, h'))) last.1,
                last.2,
              )
        ]
    | inr (n, e) ↦
        (t, λ fuel enough. present fuel enough n e, known-Inserted height rank bound pid t n tree e)
  ]
    where
      up :
          (n : Node)
          → n.ppid == 0 ≡ false
          → (n.ppid ≡ 0) ⊎ (stat pid ≡ some n.ppid)
          → height n.ppid < height pid
      up n some_ppid (inl zero_ppid) = cc (eq→== n.ppid 0 zero_ppid, some_ppid)
      up n some_ppid (inr e) = grows pid n.ppid e some_ppid

      by_parent :
          (ppid : ℕ)
          → (find ppid t ≡ none) ⊎ ((n : Node) × (find ppid t ≡ some n))
          → (height ppid < k
              → Settles
                  (λ fuel. insert_process stat self fuel ppid none t)
                  (λ fuel. height ppid < fuel)
                  (Inserted height ppid t))
          → height ppid < k
          → Settles
              (λ fuel. retrieve_by (insert_process stat self fuel) ppid none t)
              (λ fuel. height ppid < fuel)
              (Inserted height ppid t)
      by_parent ppid (inl e) insertion h =
          let r = insertion h in (r.0, λ fuel enough. rw (retrieve_by, e) (r.1 fuel enough), r.2)
      by_parent ppid (inr (n, e)) insertion h = (
        t,
        λ fuel enough. rw (retrieve_by, e) refl,
        known-Inserted height rank bound ppid t n tree e,
      )

      present :
          (fuel : ℕ)
          → height pid < fuel
          → (n : Node) → find pid t ≡ some n
          → insert_process stat self fuel pid parent t ≡ done t
      present zero enough n e = absurd (omega arith)
      present (suc f) enough n e = rw (insert_process, e) refl

      direct :
          (fuel : ℕ)
          → height pid < fuel
          → find pid t ≡ none
          → (r : Node × Tree) (u : Tree) → construct stat pid parent t ≡ done r
          → climbs self pid parent r.0 ≡ false
          → attach pid r.0 parent r.1 ≡ done u
          → insert_process stat self fuel pid parent t ≡ done u
      direct zero enough fresh r u c stays a = absurd (omega arith)
      direct (suc f) enough fresh r u c stays a = rw (insert_process, fresh, c, ◌>>=◌, stays) a

      climbed :
          (fuel : ℕ)
          → height pid < fuel
          → find pid t ≡ none
          → (r : Node × Tree) (u v : Tree) → construct stat pid parent t ≡ done r
          → climbs self pid parent r.0 ≡ true
          → r.1 ≡ t
          → ((f : ℕ)
              → height pid ≤ f
              → retrieve_by (insert_process stat self f) r.0.ppid none t ≡ done u)
          → attach pid r.0 (some r.0.ppid) u ≡ done v
          → insert_process stat self fuel pid parent t ≡ done v
      climbed zero enough fresh r u v c climbing same first a = absurd (omega arith)
      climbed (suc f) enough fresh r u v c climbing same first a =
          let found =
            ap (retrieve_by (insert_process stat self f) r.0.ppid none) same
            ∙ first f (omega arith) in
          rw (insert_process, fresh, c, ◌>>=◌, climbing)
            (ap (λ o. o >>= λ t'. attach pid r.0 (some r.0.ppid) t') found ∙ a)

  -- If parents are higher up than their children, then in a tree, with fuel for the height, `insert` of
  -- a process, below a process of the tree or below none, follows no dangling pointer and ends. It
  -- leaves a tree with the process, in which the processes of before have the parents that they had,
  -- and others were added only if they are no lower than the process.
  pub insert_process-Inserted :
      (pid : ℕ) (parent : Option ℕ) (rank : ℕ → ℕ) (bound : ℕ) (t : Tree)
      → IsTree rank bound t
      → ((q : ℕ) → parent ≡ some q → (n : Node) × (find q t ≡ some n))
      → Settles
          (λ fuel. insert_process stat self fuel pid parent t)
          (λ fuel. height pid < fuel)
          (Inserted height pid t)
  insert_process-Inserted pid parent rank bound t tree known =
      insert_by_height (height pid + 1) pid parent rank bound t tree known (omega arith)
