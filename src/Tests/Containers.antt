-- ===== src/Tests/Containers.antt =====
-- Small runs of the vector and of the map.
use crep_os.Base.{
  ℕ, ◌+◌, ◌<◌, ◌≡◌, refl, [], ◌∷◌, ◌++◌, some, if◌then◌else◌, ◌==◌, arith, take, drop,
}
use crep_os.Containers.Vector.{Vector, size, push, pop, copy, removed, remove}
use crep_os.Containers.Vector.Room.{push-remove_overflows}
use crep_os.Containers.Map.{Map, read, assign, remove_key}
use crep_os.Containers.Map.Laws.{holds, holds-assign}

abbrev three : Vector ℕ
three = record { elements = 5 ∷ 6 ∷ 7 ∷ []; buf_cap = 6; room = 6 }

popped : pop three ≡ some (7, record { elements = 5 ∷ 6 ∷ []; buf_cap = 6; room = 6 })
unfolding pop
popped = refl

copied : copy three ≡ three
unfolding copy
copied = refl

abbrev pids : Map ℕ
pids = record {
  tags = record { elements = 1 ∷ 2 ∷ []; buf_cap = 2; room = 2 };
  values = record { elements = 10 ∷ 20 ∷ []; buf_cap = 2; room = 2 };
}

found : (read 0 pids 2).0 ≡ some 20
unfolding read
found = refl

grown : (assign 0 pids 3 30).tags.elements ≡ 1 ∷ 2 ∷ 3 ∷ []
unfolding assign
grown = refl

gone :
    remove_key pids 1
    ≡ some (record {
      tags = record { elements = 2 ∷ []; buf_cap = 2; room = 1 };
      values = record { elements = 20 ∷ []; buf_cap = 2; room = 1 };
    })
unfolding remove_key
gone = refl

push-remove_overflows_example :
    (remove three 1 ≡ some (removed three 1))
    × ((removed three 1).elements ≡ take 1 three.elements ++ drop (1 + 1) three.elements)
    × ((push (removed three 1) 9).room < size (push (removed three 1) 9))
push-remove_overflows_example = push-remove_overflows three 1 9 (omega arith) (omega arith)

holds-assign_example : holds (assign 0 pids 2 25) 2 ≡ (if 2 == 2 then some 25 else holds pids 2)
holds-assign_example = holds-assign 0 pids 2 2 25 refl
