-- ===== src/Tracker/Report/Servers.antt =====
-- The servers of a tracker, by group and address, and how a write through a group's pointer changes
-- them.
use mathlib.Core.Option
use eggdfs.Base.{ℕ, ◌≡◌, refl, ◌∙◌, true, false, Option, none, some}
use eggdfs.Base.Text.{Text, text_eq}
use eggdfs.Base.Dict.{lookup, insert, lookup-insert}
use eggdfs.Group.{StorageServer, Group, get_storage}
use eggdfs.Group.Sweep.Laws.{expire}
use eggdfs.Tracker.{Tracker}
use eggdfs.Tracker.Report.Laws.{After, Settled, Refreshed-Settled}

-- The server that the tracker has under a group's name and an address.
abbrev pub server_in : Text → Option Group → Option StorageServer
server_in k none = none
server_in k (some g) = get_storage k g

pub After-server :
    (now : ℕ) (k : Text) (o o' : Option Group)
    → After now o o'
    → server_in k o' ≡ Option.map (expire now) (server_in k o)
After-server now k none none a = refl
After-server now k none (some h) a = absurd a
After-server now k (some g) none a = absurd a
After-server now k (some g) (some h) a = a.servers k

pub After-Settled : (now : ℕ) (o : Option Group) (h : Group) → After now o (some h) → Settled now h
After-Settled now none h a = absurd a
After-Settled now (some g) h a = Refreshed-Settled now g h a

module _ {S : Type 0} where
  abbrev pub server_at : Text → Text → Tracker S → Option StorageServer
  server_at n k t = server_in k (lookup n t.groups)

  -- A write through the pointer of a group.
  module _ (name : Text) (t : Tracker S) (g : Group) (e : g.name ≡ name) (n : Text) where
    pub put_group-same : text_eq name n ≡ true → lookup n (insert g.name g t.groups) ≡ some g
    put_group-same same = lookup-insert g.name n g t.groups ∙ rw (e, same)

    pub put_group-other :
        text_eq name n ≡ false → lookup n (insert g.name g t.groups) ≡ lookup n t.groups
    put_group-other differ = lookup-insert g.name n g t.groups ∙ rw (e, differ)
