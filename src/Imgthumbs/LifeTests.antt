-- ===== src/Imgthumbs/LifeTests.antt =====
-- The example program in a run in which one thumbnail is loaded and put into the list.
use libresman.Base.{ℕ, ◌<◌, ◌≡◌, refl, true, false, Option, none, some, [], ◌∷◌, ok, arith}
use libresman.Dynarr.{dynarr_size, dynarr_push, dynarr_resize, put_item, append_item}
use libresman.Resman.{
  Resource, new_resource, find_resource, find_from as search_from, free_from, resman_add,
  add_resource, start_resource, set_id, resman_reload, item_at, write_at,
}
use libresman.Resman.Access.{
  resman_get_res_data, resman_get_res_result, resman_get_res_load_count, resman_set_res_data,
}
use libresman.Resman.Work.{work_func, done_callback}
use libresman.Imgthumbs.{Thumbnail, Store, write_thumb}
use libresman.Imgthumbs.Thumbs.{
  Texman, blank, link_after, thumb_of, load_res_texture, load_into, read_image, done_res_texture,
  upload,
}
use libresman.Imgthumbs.Create.{start_thumb}
use libresman.Imgthumbs.Callbacks.{run_load, run_done}
use libresman.Imgthumbs.Viewer.{new_viewer}
use libresman.Imgthumbs.Life.{App, Opened, Run, at_rest, one_more, starts, loads, finishes}
use libresman.Imgthumbs.Safe.{IsSafe, Run-IsSafe}
use libresman.Imgthumbs.Samples.{
  thousandths, constants, entry, picture, no_table-Holds, new_texman, empty_store,
}

-- A run: one file is added, loaded, taken up and drawn.
abbrev head_store : Store ℕ
head_store = write_thumb empty_store 7 (some (blank thousandths))

abbrev app0 : App thousandths 7
app0 = record { texman = new_texman; store = head_store; viewer = new_viewer thousandths (some 7) }

app0-Opened : Opened thousandths 7 app0
app0-Opened = record {
  table = no_table-Holds;
  destroys = refl;
  list = record { linked = (refl, (blank thousandths, refl, refl, refl)); distinct = omega arith };
  window = refl;
}

abbrev one_res : Resource (Option ℕ)
one_res = record (new_resource (46 ∷ 47 ∷ 97 ∷ []) (some 8)) { pending = true }

abbrev texman_with : Resource (Option ℕ) → ℕ → Texman
texman_with r tasks = record {
  res = record { nelem = 1; szelem = 8; max_elem = 1; bufsz = 8; slots = some (some r) ∷ [] };
  tasks = tasks;
  jobs = 0 ∷ [];
  destroy_func = true;
  destroyed = [];
}

abbrev new_thumb : Thumbnail ℕ
new_thumb = record (blank thousandths) { fname = some (46 ∷ 47 ∷ 97 ∷ []); aspect = 1000 }

abbrev store1 : Store ℕ
store1 =
    write_thumb (write_thumb (record head_store { names = 1 }) 8 (some new_thumb)) 8
      (some (record new_thumb { list = some 7; load_count = 0 }))

abbrev app1 : App thousandths 7
app1 = record app0 { texman = texman_with one_res 0; store = store1 }

started :
    start_thumb thousandths true
      (entry (97 ∷ []) 8 none)
      new_texman
      head_store
      (some 7)
      8
      (46 ∷ 47 ∷ 97 ∷ [])
    ≡ ok (texman_with one_res 0, store1)
unfolding start_thumb resman_add find_resource search_from add_resource free_from dynarr_push
    dynarr_resize put_item append_item dynarr_size start_resource set_id resman_reload item_at
    write_at
started = refl

abbrev store2 : Store ℕ
store2 =
    write_thumb store1 8
      (some (record new_thumb { list = some 7; img = some picture; aspect = 1333 }))

abbrev done_res : Resource (Option ℕ)
done_res = record one_res { pending = false; done_pending = true }

abbrev app2 : App thousandths 7
app2 = record app0 { texman = texman_with done_res 1; store = store2 }

was_loaded :
    run_load thousandths true (some picture) app1.texman app1.store 0
    ≡ ok (texman_with done_res 1, store2)
unfolding run_load load_res_texture load_into read_image thumb_of resman_get_res_data
    resman_set_res_data dynarr_size item_at write_at work_func
was_loaded = refl

-- The thumbnail has its texture and its place behind the head.
abbrev loaded_thumb : Thumbnail ℕ
loaded_thumb = record new_thumb { list = some 7; img = some picture; aspect = 1333; tex = 5 }

abbrev linked_thumb : Thumbnail ℕ
linked_thumb = record loaded_thumb { prev = some 7; next = none }

abbrev store3 : Store ℕ
store3 =
    write_thumb
      (write_thumb
        (write_thumb (write_thumb store2 8 (some loaded_thumb)) 8
          (some (record loaded_thumb { prev = some 7 })))
        8 (some linked_thumb))
      7 (some (record (blank thousandths) { next = some 8 }))

abbrev taken_res : Resource (Option ℕ)
taken_res = record done_res { done_pending = false; num_loads = 1 }

abbrev app3 : App thousandths 7
app3 = record app0 { texman = texman_with taken_res 1; store = store3 }

was_done :
    run_done thousandths 5 app2.texman app2.store 0 done_res ≡ ok (texman_with taken_res 1, store3)
unfolding run_done done_res_texture link_after thumb_of upload resman_get_res_data
    resman_get_res_result resman_get_res_load_count dynarr_size item_at write_at done_callback
was_done = refl

in_first : (r : Resource (Option ℕ)) (tasks : ℕ) → item_at (texman_with r tasks).res 0 ≡ ok (some r)
unfolding item_at
in_first r tasks = refl

in_range : (r : Resource (Option ℕ)) (tasks : ℕ) → 0 < dynarr_size (texman_with r tasks).res
unfolding dynarr_size
in_range r tasks = omega arith

done-Run : Run thousandths 7 app0 app3
done-Run =
    one_more app2 app3
      (one_more app1 app2
        (one_more app0 app1 at_rest (
          starts (entry (97 ∷ []) 8 none) 8 (46 ∷ 47 ∷ 97 ∷ []) (texman_with one_res 0) store1 refl
            (omega arith) started))
        (loads true (some picture) 0 one_res (texman_with done_res 1) store2
          (in_range one_res 0, in_first one_res 0) was_loaded))
      (finishes 5 0 done_res (texman_with taken_res 1) store3
        (in_range done_res 1, in_first done_res 1) refl (omega arith) was_done)

Run-IsSafe_example : IsSafe thousandths 7 constants app3
Run-IsSafe_example = Run-IsSafe thousandths 7 constants app0 app3 app0-Opened done-Run
