-- ===== src/Lib.antt =====
-- libkolibre-xmlreader reads XML and HTML documents from files and over HTTP, and keeps the documents
-- that it fetched, compressed, for later requests. This library models the reader, the streams
-- and the cache.
--
-- The parts, and the files that model them:
--
--   Base           shared names, byte strings as lists of numbers (Base/Text), lists measured by native
--                  numbers (Base/Lists), Boolean tests (Base/Tests), and what a run of C++ code comes to
--                  (Base/Outcome): it is done, it does what has no defined behaviour, or its fuel is up.
--   Url            url2hostname, url2username and url2password of src/HttpStream.cpp.
--   Cache          src/CacheObject.h and src/CacheObject.cpp. zlib is a parameter (Cache/Zlib): a record
--                  of functions. writeBytes is write_bytes (Cache/Object/Write), readBytes is read_bytes
--                  (Cache/Object/Read); each other member has its name in the spelling of
--                  this library. Buffer, Compress and Pack of Cache/Object follow a document that is
--                  written, Inflate and Unpack one that is read, RoundTrip both.
--   Http           src/HttpStream.h and src/HttpStream.cpp. Http/Stream has the state, the constructor,
--                  setupConnection, destroyConnection, resetBuffer and the destructor, Http/Header has
--                  headerCallback, Http/Transfer has writeCallback and the serving of bytes that were
--                  held back, Http/Status has getHttpMsg, Http/Response the answers to each status and
--                  each result of curl, redirects among them, Http/Debug the debug callback. Http/Read
--                  has the whole of readBytes, and below it are the stream as its caller sees it (Input),
--                  the loop against a script of curl (Condition, Bodies, Script, Loop, Once, Download)
--                  with the header lines of a response (Heads, Opening; Http/Header/Frame),
--                  reading from the cached document (Cached, Unchanged), and storing into it (Storing).
--                  Http/Error has src/XmlError.h and the codes of src/InputStream.h.
--   Handler        src/DataStreamHandler.h and src/DataStreamHandler.cpp: the map of cached documents,
--                  addCacheObject, getCacheObject and checkCacheSize; newStream (open_stream) and
--                  releaseHandle with the free handles of curl (Handler/Handles); the instance with its
--                  constructor and destructor (Handler/Teardown); the lock callbacks (Handler/Locks).
--   Stream         src/InputStream.h: the interface of the streams as a record, over the stream's state.
--   File           src/FileStream.h and src/FileStream.cpp, over the operating system's files.
--   Tidy           src/TidyStream.h and src/TidyStream.cpp: Perform is perform, readBytes is read_tidy,
--                  the destructor is destroy_tidy.
--   Xml            src/XmlAttributes.h and src/XmlAttributes.cpp (Xml/Attributes); XmlNamespace of
--                  src/XmlReader.h with pushNamespaces and popNamespaces of src/XmlReader.cpp
--                  (Xml/Namespaces; Chain has the search for a prefix); the interfaces of
--                  src/XmlReader.h for an application, with src/XmlDefaultHandler.cpp
--                  (Xml/Interfaces); the callbacks for libxml2 and the state of
--                  the reader (Xml/Sax); parse, parseXml and parseHtml of src/XmlReader.cpp with
--                  src/DataSource.cpp (Xml/Reader). Xml/Strings has transcode and release.
--   Tests          runs at concrete inputs.
--
-- How they interact: the handler gives a stream the cached document of its URL; the stream sends the
-- document's validators with its request, writes the bytes of a response into the document as curl
-- hands them over, or, after a response 304, reads them from it; when it is destroyed it gives the
-- document back by addCacheObject, which evicts others when all take more than 4 MB.
--
-- The reader asks for a stream for an address, reads it 4096 bytes at a time, and hands each piece to
-- libxml2, which calls the reader's callbacks; these keep the namespaces and call the application. For
-- HTML it first parses without callbacks, and then, when that fails, from a stream that puts what it
-- reads through libtidy and keeps the result in the cache.
--
-- State is passed explicitly: a member function is a function from the object to the object behind it
-- and its result. A member pointer that is freed is a block that cannot be used or freed again, so that
-- a double free is a fault, and so is a copy that runs out of its range or overlaps. Documents of the
-- handler stand in a heap, and a deleted one is gone from it. An exception is a value. Sizes are native
-- numbers; where the source subtracts what may be larger, the result is taken modulo 2 ^ 64. The size of
-- a document's buffer is a product of `int`, which is a fault from 2 ^ 31 on, and zlib is given as much
-- as 32 bits count.
--
-- libxml2 is a context that runs up to the next callback it makes, or to the end of the chunk it was
-- given; the application is a function of the call and its state; libtidy, stat, fopen and fread are
-- records of functions (Libxml, Implements, Libtidy, Files). What newStream makes is a parameter of the
-- reader (Source), any stream is one of a TidyStream.
--
-- curl is a script: for each call of curl_multi_perform the callbacks that it makes and the messages
-- that it leaves (Http/Read). Loops run on fuel where they are not structural: the loops over zlib, one
-- unit for each call of it or each growth of the buffer; the loop of readBytes, one unit for each round;
-- that of parse, one for each read, and a call of parseChunk, one for each callback. Letting go a
-- namespace and its parents, and the search for a prefix, take one unit for each namespace, which the
-- addresses given out bound. Whether memory is refused is a parameter (the field alloc of Zlib).
--
-- zlib is taken to be lossless where a document is to come back (IsLossless of Cache/Object/RoundTrip), and
-- the locale to code texts as the C library documents it (IsCoding of Xml/Strings/Cut).
--
-- Not modelled: logging other than the debug callback of HttpStream, the options of curl's handles that
-- are the same for all requests, the set-up and clean-up of curl's multi and share handles; two streams
-- that share a cached document, which the handler allows: a stream has its document by value; an application
-- that calls the reader from a callback; tests/, which drives the library, and the build files.
pub mod Base
pub mod Url
pub mod Cache
pub mod Http
pub mod Stream
pub mod Handler
pub mod File
pub mod Tidy
pub mod Xml
pub mod Tests
