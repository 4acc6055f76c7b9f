-- ===== src/Heap/Swap.antt =====
-- memory/heap.py: what a read gives back of a content that was swapped out.
use hollow_agent_os.Base.{ℕ, ◌≡◌, refl, String, true, false, some}
use hollow_agent_os.Dict
use hollow_agent_os.Dict.{get-put_self, get-put}
use hollow_agent_os.Heap.Record.{
  Host, Heap, MemoryObject, count_tokens, swap_path, original_path, summarize, is_past, save,
}
use hollow_agent_os.Heap.{
  read, set_object, write_file, read_file, restored, restore_and_touch, touch, universal_newlines,
  newlines_from,
}
use hollow_agent_os.Heap.Swapping.{
  compress, finish_compress, swap_out, swapped_object, compressed_object,
}

-- What `swap_out` leaves of an object in memory.
swap_out-object :
    (h : Heap) (key : String) (obj : MemoryObject)
    → Dict.get key h.objects ≡ some obj
    → obj.swapped ≡ false
    → Dict.get key (swap_out h key).1.objects ≡ some (swapped_object (swap_path h key) obj)
unfolding swap_out set_object save write_file
swap_out-object h key obj e out =
    rw (e, out, swap_out) (get-put_self key (swapped_object (swap_path h key) obj) h.objects)

swap_out-file :
    (h : Heap) (key : String) (obj : MemoryObject)
    → Dict.get key h.objects ≡ some obj
    → obj.swapped ≡ false
    → Dict.get (swap_path h key) (swap_out h key).1.disk.files ≡ some obj.content
unfolding swap_out set_object save write_file
swap_out-file h key obj e out =
    rw (e, out, swap_out) (get-put_self (swap_path h key) obj.content h.disk.files)

-- A read of a swapped object whose file is there.
read_swapped :
    (host : Host) (h : Heap) (key content : String) (obj : MemoryObject) (now at : ℕ)
    → Dict.get key h.objects ≡ some obj
    → obj.swapped ≡ true
    → is_past now obj.ttl ≡ false
    → read_file obj.disk_path h ≡ some content
    → ((read host h key now at).0 ≡ some content)
      × (Dict.get key (read host h key now at).1.objects
          ≡ some (record (restored host content obj) { last_read_at = at }))
unfolding read restore_and_touch set_object save touch restored
read_swapped host h key content obj now at e out live f =
    rw (e, live, out, read, f, restore_and_touch)
      (
        refl,
        get-put_self key (record (restored host content obj) { last_read_at = at })
            (Dict.put key (restored host content obj) h.objects),
      )

read_file-written :
    (path content : String) (h : Heap)
    → Dict.get path h.disk.files ≡ some content
    → read_file (some path) h ≡ some (universal_newlines content)
unfolding read_file
read_file-written path content h e = rw (e, read_file) refl

-- Swapping out and reading an object whose file can be written and whose time to live has not passed:
-- the content comes back, up to the line ends, which the file gives back as `\n`; the object is in
-- memory again with this content, its tokens counted anew.
pub swap_out-read :
    (host : Host) (h : Heap) (key : String) (obj : MemoryObject) (now at : ℕ)
    → Dict.get key h.objects ≡ some obj
    → obj.swapped ≡ false
    → is_past now obj.ttl ≡ false
    → let (content, h') = read host (swap_out h key).1 key now at in
      (content ≡ some (universal_newlines obj.content))
      × (Dict.get key h'.objects
          ≡ some (record obj {
            content = universal_newlines obj.content;
            token_count = count_tokens host (universal_newlines obj.content);
            swapped = false;
            last_read_at = at;
            disk_path = some (swap_path h key);
          }))
unfolding swapped_object restored
swap_out-read host h key obj now at e out live =
    read_swapped host (swap_out h key).1 key (universal_newlines obj.content)
      (swapped_object (swap_path h key) obj) now at (swap_out-object h key obj e out) refl live
      (read_file-written (swap_path h key) obj.content (swap_out h key).1
        (swap_out-file h key obj e out))

written :
    (h : Heap) (path content : String)
    → Dict.get path (write_file path content h).disk.files ≡ some content
unfolding write_file
written h path content = get-put_self path content h.disk.files

-- What compression leaves of an object in memory, and of its content on disk.
finish_compress-object :
    (host : Host) (h : Heap) (key content : String) (tokens : ℕ) (obj : MemoryObject)
    → Dict.get key (write_file (original_path h key) content h).objects ≡ some obj
    → (Dict.get key (finish_compress host h key content tokens).1.objects
        ≡ some (compressed_object host (summarize host content) (original_path h key) obj))
      × (Dict.get (original_path h key) (finish_compress host h key content tokens).1.disk.files
          ≡ some content)
unfolding finish_compress set_object save
finish_compress-object host h key content tokens obj e =
    let h1 = write_file (original_path h key) content h in
    rw (e, finish_compress)
      (
        get-put_self key (compressed_object host (summarize host content) (original_path h key) obj)
            h1.objects,
        written h (original_path h key) content,
      )

compress-object :
    (host : Host) (h : Heap) (key : String) (obj : MemoryObject)
    → Dict.get key h.objects ≡ some obj
    → obj.compressed ≡ false
    → (Dict.get key (compress host h key).1.objects
        ≡ some (compressed_object host (summarize host obj.content) (original_path h key) obj))
      × (Dict.get (original_path h key) (compress host h key).1.disk.files ≡ some obj.content)
unfolding write_file compress compressed_object
compress-object host h key obj e fresh =
    rw (e, fresh, compress) (finish_compress-object host h key obj.content obj.token_count obj e)

-- Compressing an object that is swapped out loses its content: the empty text that stands in memory
-- is taken for the original, and a later read gives that empty text.
pub compress_swapped-loses :
    (host : Host) (h : Heap) (key : String) (obj : MemoryObject) (now at : ℕ)
    → Dict.get key h.objects ≡ some obj
    → obj.swapped ≡ false
    → obj.compressed ≡ false
    → is_past now obj.ttl ≡ false
    → (read host (compress host (swap_out h key).1 key).1 key now at).0 ≡ some ""
unfolding swapped_object compressed_object newlines_from
compress_swapped-loses host h key obj now at e out fresh live =
    let swapped = swapped_object (swap_path h key) obj in
    let h1 = (swap_out h key).1 in
    let here = swap_out-object h key obj e out in
    let (after, file) = compress-object host h1 key swapped here fresh in
    (read_swapped host (compress host h1 key).1 key ""
      (compressed_object host (summarize host "") (original_path h1 key) swapped) now at after refl
      live (read_file-written (original_path h1 key) "" (compress host h1 key).1 file)).0
