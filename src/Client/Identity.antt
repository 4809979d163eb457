-- ===== src/Client/Identity.antt =====
-- How a container is known: client/lib/rpc.c puts its id into the path of the client's socket, and
-- router/test_router.cpp takes it from there.
use freelite.Base.{
  ℕ, zero, suc, ◌≤◌, Bytes, [], ◌∷◌, ◌++◌, some, ◌≡◌, ◌↔◌, refl, sym, ap, ◌∙◌, arith, length, take,
}
use freelite.Client.{client_path, slash, print_pid}
use freelite.Router.{cid_of_path}

take-append : (n : ℕ) (s t : Bytes) → n ≤ length s → take n (s ++ t) ≡ take n s
take-append zero s t h = refl
take-append (suc n) [] t h = absurd (omega arith)
take-append (suc n) (b ∷ s) t h = ap (◌∷◌ b) (take-append n s t (omega arith))

-- The directory has nine bytes: the router reads its last slash and the first five bytes of the id.
cid_of_path-client_path :
    (cid : Bytes) (pid : ℕ)
    → 5 ≤ length cid
    → cid_of_path (client_path cid pid) ≡ some (slash ∷ take 5 cid)
unfolding cid_of_path
cid_of_path-client_path cid pid h = ground (arith, take-append 5 cid (print_pid pid) h)

-- Two containers with ids of six bytes are the same container to the router exactly when the first
-- five bytes of their ids agree, whatever the process ids are.
pub same_cid_iff :
    (c d : Bytes) (p q : ℕ)
    → length c ≡ 6
    → length d ≡ 6
    → (cid_of_path (client_path c p) ≡ cid_of_path (client_path d q)) ↔ (take 5 c ≡ take 5 d)
same_cid_iff c d p q hc hd =
    let left = cid_of_path-client_path c p (omega arith) in
    let right = cid_of_path-client_path d q (omega arith) in
    (λ e. cc (sym left ∙ e ∙ right), λ e. left ∙ ap (λ s. some (slash ∷ s)) e ∙ sym right)
