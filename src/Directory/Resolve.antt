-- ===== src/Directory/Resolve.antt =====
-- Path resolution: the two walks of `DMStore::get_uuid` and `DMStore::get_2_uuid`, the last component
-- of a path, and stores that have more keys.
use undergraduate_project.Shared.{
  Text, text_eq, colon_key, ◌≡◌, refl, inl, inr, false, Option, some, List, [], ◌∷◌, ◌++◌, ◌>>=◌,
  if◌then◌else◌, arith, Option-cases, Bool-cases,
}
use undergraduate_project.External.{CacheDb, PathLib}
use undergraduate_project.Directory.Store.{
  DmStore, walk, walk_2, components, look, get_uuid, get_2_uuid, root_path, root_uuid,
}

-- `get_2_uuid` finds what `get_uuid` finds.
walk_2-walk :
    (look : Text → Option Text) (p u : Text) (vs : List Text)
    → (walk_2 look p u vs >>= λ r. some r.1) ≡ walk look u vs
unfolding walk walk_2
walk_2-walk look p u [] = refl
walk_2-walk look p u (v ∷ vs) = elim (Option-cases (look (colon_key u v))) [
  | inl e ↦ rw (e, ◌>>=◌)
  | inr (next, e) ↦ rw (e, ◌>>=◌) (walk_2-walk look u next vs)
]

walk_one : (look : Text → Option Text) (u v : Text) → walk look u (v ∷ []) ≡ look (colon_key u v)
unfolding walk
walk_one look u v = elim (Option-cases (look (colon_key u v))) [
  | inl e ↦ rw (e, ◌>>=◌)
  | inr (next, e) ↦ rw (e, ◌>>=◌)
]

walk_2_one :
    (look : Text → Option Text) (p u v : Text)
    → walk_2 look p u (v ∷ []) ≡ (look (colon_key u v) >>= λ r. some (u, r))
unfolding walk_2
walk_2_one look p u v = refl

-- A walk over one more component is one more lookup, under the uuid reached so far.
pub walk-append :
    (look : Text → Option Text) (u : Text) (vs : List Text) (v : Text)
    → walk look u (vs ++ v ∷ []) ≡ (walk look u vs >>= λ p. look (colon_key p v))
unfolding walk
walk-append look u [] v = elim (Option-cases (look (colon_key u v))) [
  | inl e ↦ rw (e, ◌>>=◌)
  | inr (next, e) ↦ rw (e, ◌>>=◌)
]
walk-append look u (w ∷ vs) v = elim (Option-cases (look (colon_key u w))) [
  | inl e ↦ rw (e, ◌>>=◌)
  | inr (next, e) ↦ rw (e, ◌>>=◌) (walk-append look next vs v)
]

pub walk_2-append :
    (look : Text → Option Text) (p u : Text) (vs : List Text) (v : Text)
    → walk_2 look p u (vs ++ v ∷ [])
      ≡ (walk look u vs >>= λ q. look (colon_key q v) >>= λ r. some (q, r))
unfolding walk walk_2
walk_2-append look p u [] v = elim (Option-cases (look (colon_key u v))) [
  | inl e ↦ rw (e, ◌>>=◌)
  | inr (next, e) ↦ rw (e, ◌>>=◌)
]
walk_2-append look p u (w ∷ vs) v = elim (Option-cases (look (colon_key u w))) [
  | inl e ↦ rw (e, ◌>>=◌)
  | inr (next, e) ↦ rw (e, ◌>>=◌) (walk_2-append look u next vs v)
]

-- `g` answers whatever `f` answers, with the same value.
abbrev pub Extends : (Text → Option Text) → (Text → Option Text) → Type 0
Extends f g = (k u : Text) → f k ≡ some u → g k ≡ some u

pub walk-Extends :
    (f g : Text → Option Text) (u : Text) (vs : List Text) {r : Text}
    → Extends f g
    → walk f u vs ≡ some r
    → walk g u vs ≡ some r
unfolding walk
walk-Extends f g u [] ext e = e
walk-Extends f g u (v ∷ vs) {r} ext e = elim (Option-cases (f (colon_key u v))) [
  | inl miss ↦ absurd (ground arith)
  | inr (next, hit) ↦
      rw (ext (colon_key u v) next hit) (walk-Extends f g next vs {r = r} ext (rw hit at e))
]

-- A path that the source's walks treat alike: not the root, and its components are those of its
-- parent followed by its last name. So is every absolute path in normal form below the root.
pub record IsChildPath (fs : PathLib) (path : Text) : Type 0 where
  pub below_root : text_eq path root_path ≡ false
  pub split :
      components fs path
      ≡ (if text_eq (fs.parent_path path) root_path
          then []
          else components fs (fs.parent_path path))
        ++ fs.filename path ∷ []

module _ {kc : CacheDb} (fs : PathLib) where
  -- For every path `get_2_uuid` resolves exactly when `get_uuid` does, and to the same uuid.
  pub get_2_uuid-get_uuid :
      (s : DmStore kc) (path : Text) → (get_2_uuid fs s path >>= λ r. some r.1) ≡ get_uuid fs s path
  unfolding get_2_uuid get_uuid
  get_2_uuid-get_uuid s path = elim (Bool-cases (text_eq path root_path)) [
    | inl root ↦ rw root
    | inr below ↦ rw below (walk_2-walk _ _ _ _)
  ]

  -- A child path is looked up by its name under the uuid of its parent.
  pub get_uuid_child :
      (s : DmStore kc) (path : Text)
      → IsChildPath fs path
      → get_uuid fs s path
        ≡ (get_uuid fs s (fs.parent_path path) >>= λ p. look fs s (colon_key p (fs.filename path)))
  unfolding get_uuid
  get_uuid_child s path c = elim (Bool-cases (text_eq (fs.parent_path path) root_path)) [
    | inl root ↦
        rw (c.below_root, c.split, root) (walk_one (look fs s) root_uuid (fs.filename path))
    | inr below ↦ rw (c.below_root, c.split, below) (walk-append (look fs s) _ _ _)
  ]

  -- Then `get_2_uuid` gives the uuid of the parent beside its own.
  pub get_2_uuid_child :
      (s : DmStore kc) (path : Text)
      → IsChildPath fs path
      → get_2_uuid fs s path ≡ (
          get_uuid fs s (fs.parent_path path) >>= λ p.
          look fs s (colon_key p (fs.filename path)) >>= λ u. some (p, u))
  unfolding get_uuid get_2_uuid
  get_2_uuid_child s path c = elim (Bool-cases (text_eq (fs.parent_path path) root_path)) [
    | inl root ↦
        rw (c.below_root, c.split, root)
          (walk_2_one (look fs s) root_uuid root_uuid (fs.filename path))
    | inr below ↦ rw (c.below_root, c.split, below) (walk_2-append (look fs s) _ _ _ _)
  ]

  -- Adding keys never takes a resolved path away.
  pub get_uuid-Extends :
      (s t : DmStore kc) (path : Text) {u : Text}
      → Extends (look fs s) (look fs t)
      → get_uuid fs s path ≡ some u
      → get_uuid fs t path ≡ some u
  unfolding get_uuid
  get_uuid-Extends s t path ext e = elim (Bool-cases (text_eq path root_path)) [
    | inl root ↦ rw root (rw root at e)
    | inr below ↦ rw below (walk-Extends (look fs s) (look fs t) _ _ ext (rw below at e))
  ]
